-- ===== src/Conn/Examples.antt =====
-- A connection in concrete histories.
use cronet_go.Base.{◌≡◌, refl, List, [], ◌∷◌, true, false, if◌then◌else◌, ◌||◌, eof, err}
use cronet_go.Conn.{
  is_shut, cancelled_by_peer, create_conn, start, on_stream_ready, set_on_terminate, terminate,
  cancel_locked, close_conn, on_terminal,
}
use cronet_go.Conn.Threads.{
  Event, starts, hooks, closes, stream_ready, read_called, write_called, reads, writes,
  read_completed, ends, by_gate, by_done, finished, step, run, initial, begins, pass_gate, select,
  read_step, write_step,
}
use cronet_go.Conn.Channels.{Sound, run-initial-Sound}
use cronet_go.Conn.Ownership.{is_waiting, run-initial-Owned, write_returns_early}
use cronet_go.Conn.Notice.{run-initial-notified}

abbrev opening : List Event
opening =
    hooks
    ∷ starts true
    ∷ stream_ready
    ∷ read_called
    ∷ write_called
    ∷ reads by_gate
    ∷ reads by_gate
    ∷ reads by_gate
    ∷ writes by_gate
    ∷ writes by_gate
    ∷ writes by_gate
    ∷ []

abbrev ending : List Event
ending = hooks ∷ starts true ∷ closes false ∷ ends cancelled_by_peer ∷ []

run-initial-Sound_example : Sound (run false false initial ending).conn
run-initial-Sound_example = run-initial-Sound false false ending

run-initial-Owned_example :
    let s = run false false initial opening in
    (s.conn.native.reading ≡ true → is_waiting s.reader ≡ true)
    × (s.conn.native.writing ≡ true → (is_waiting s.writer || is_shut s.conn.done) ≡ true)
run-initial-Owned_example = run-initial-Owned false false opening

run-initial-notified_example :
    let s = run false false initial ending in
    s.conn.notified ≡ (if is_shut s.conn.done then 1 else 0)
unfolding run step create_conn start set_on_terminate close_conn on_terminal terminate cancel_locked
run-initial-notified_example = run-initial-notified false false ending refl

write_returns_early_example :
    let t =
      run false false
        (run false false initial opening)
        (read_completed 0 by_done ∷ writes by_done ∷ writes by_done ∷ []) in
    (t.writer ≡ finished (err eof)) × (t.conn.native.writing ≡ true)
unfolding run step create_conn start set_on_terminate on_stream_ready read_step write_step pass_gate
    select begins
write_returns_early_example =
    write_returns_early false false (run false false initial opening)
      (run-initial-Sound false false opening) refl refl refl refl
