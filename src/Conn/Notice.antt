-- ===== src/Conn/Notice.antt =====
-- The callback that tells the owner of a connection that it has ended.
use cronet_go.Base.{ℕ, zero, suc, ◌≡◌, refl, List, [], ◌∷◌, Bool, true, false, if◌then◌else◌, arith}
use cronet_go.Conn.{
  is_shut, cancel_locked, terminate, start, set_on_terminate, close_conn, on_stream_ready,
  on_response_headers_received, on_terminal, create_conn,
}
use cronet_go.Conn.Threads.{
  System, Event, starts, hooks, closes, stream_ready, headers_received, read_called, write_called,
  reads, writes, read_completed, write_completed, ends, await, read_step, write_step,
  on_read_completed, on_write_completed, step, run, initial, Phase, Branch, by_close, finished,
  waiting,
}
use cronet_go.Conn.Channels.{Sound, step-Sound, run-initial-Sound}

-- What is known of the callback that setOnTerminate is given.
pub record Notifies (s : System) : Type 0 where
  pub unhooked : s.hooked ≡ false → (s.conn.on_terminate ≡ false) × (s.conn.notified ≡ 0)
  pub hooked_live :
      s.hooked ≡ true
      → s.conn.done_once ≡ false
      → (s.conn.on_terminate ≡ true) × (s.conn.notified ≡ 0)
  pub hooked_done : s.hooked ≡ true → s.conn.done_once ≡ true → s.conn.notified ≡ 1

reads-Notifies :
    (r w : Bool) (s : System) (b : Branch) (p : Phase)
    → s.reader ≡ p
    → Notifies s
    → Notifies (step r w s (reads b))
unfolding step read_step await cancel_locked
reads-Notifies r w s b (finished x) e v = ground arith
reads-Notifies r w s b waiting e v = ground arith
reads-Notifies r w s b p e v = ground arith

writes-Notifies :
    (r w : Bool) (s : System) (b : Branch) (p : Phase)
    → s.writer ≡ p
    → Notifies s
    → Notifies (step r w s (writes b))
unfolding step write_step await cancel_locked
writes-Notifies r w s b (finished x) e v = ground arith
writes-Notifies r w s b waiting e v = ground arith
writes-Notifies r w s b p e v = ground arith

completed-Notifies :
    (r w : Bool) (s : System) (n : ℕ) (b : Branch)
    → Notifies s
    → Notifies (step r w s (read_completed n b)) × Notifies (step r w s (write_completed n b))
unfolding step on_read_completed on_write_completed terminate
completed-Notifies r w s zero by_close v = (ground arith, ground arith)
completed-Notifies r w s zero b v = (ground arith, ground arith)
completed-Notifies r w s (suc n) by_close v = (ground arith, ground arith)
completed-Notifies r w s (suc n) b v = (ground arith, ground arith)

step-Notifies :
    (r w : Bool) (s : System) (e : Event) → Sound s.conn → Notifies s → Notifies (step r w s e)
unfolding step start terminate set_on_terminate close_conn on_stream_ready
    on_response_headers_received on_terminal
step-Notifies r w s (starts true) u v = ground arith
step-Notifies r w s (starts false) u v = ground arith
step-Notifies r w s hooks u v = ground arith
step-Notifies r w s (closes prefer) u v = ground arith
step-Notifies r w s stream_ready u v = ground arith
step-Notifies r w s headers_received u v = ground arith
step-Notifies r w s read_called u v = ground arith
step-Notifies r w s write_called u v = ground arith
step-Notifies r w s (reads b) u v = reads-Notifies r w s b s.reader refl v
step-Notifies r w s (writes b) u v = writes-Notifies r w s b s.writer refl v
step-Notifies r w s (read_completed n b) u v = (completed-Notifies r w s n b v).0
step-Notifies r w s (write_completed n b) u v = (completed-Notifies r w s n b v).1
step-Notifies r w s (ends t) u v = ground arith

run-Notifies :
    (r w : Bool) (s : System) (es : List Event)
    → Sound s.conn
    → Notifies s
    → Notifies (run r w s es)
unfolding run
run-Notifies r w s [] u v = v
run-Notifies r w s (e ∷ es) u v =
    run-Notifies r w (step r w s e) es (step-Sound r w s e u) (step-Notifies r w s e u v)

-- The callback of setOnTerminate, set at any moment, has run exactly once if the connection is done
-- and not at all if it is not.
pub run-initial-notified :
    (r w : Bool) (es : List Event)
    → let s = run r w initial es in
      s.hooked ≡ true → s.conn.notified ≡ (if is_shut s.conn.done then 1 else 0)
unfolding create_conn
run-initial-notified r w es hooked =
    let v = run-Notifies r w initial es (ground arith) (ground arith) in
    ground (arith, (run-initial-Sound r w es).done_is, v.hooked_live, v.hooked_done)
