-- ===== src/Conn/Ownership.antt =====
-- Read and Write return only when the native stream has let go of the caller's slice.
use cronet_go.Base.{
  ℕ, zero, suc, ◌≡◌, refl, List, [], ◌∷◌, Bool, true, false, ◌||◌, arith, err, eof,
}
use cronet_go.Conn.{
  is_shut, cancel_locked, terminate, start, set_on_terminate, close_conn, on_stream_ready,
  on_response_headers_received, Terminal, on_terminal, create_conn,
}
use cronet_go.Conn.Channels.{Sound, step-Sound}
use cronet_go.Conn.Threads.{
  System, Event, starts, hooks, closes, stream_ready, headers_received, read_called, write_called,
  reads, writes, read_completed, write_completed, ends, select, pass_gate, begins, await, read_step,
  write_step, on_read_completed, on_write_completed, step, run, initial, Phase, Branch, by_done,
  by_close, finished, queueing, gating, starting, waiting, expiring, leaving,
}

-- A call that has handed its slice over and has not returned.
abbrev pub is_waiting : Phase → Bool
is_waiting waiting = true
is_waiting expiring = true
is_waiting (leaving e) = true
is_waiting p = false

abbrev pub is_early : Phase → Bool
is_early (finished r) = true
is_early queueing = true
is_early gating = true
is_early p = false

pub record Owned (s : System) : Type 0 where
  pub reader_waits : s.conn.native.reading ≡ true → is_waiting s.reader ≡ true
  pub writer_waits :
      s.conn.native.writing ≡ true → (is_waiting s.writer || is_shut s.conn.done) ≡ true
  pub released : is_shut s.conn.read_done ≡ true → s.conn.native.reading ≡ false
  pub ended : is_shut s.conn.done ≡ true → s.conn.native.reading ≡ false
  pub why_released :
      is_shut s.conn.read_done ≡ true → (is_shut s.conn.close || is_shut s.conn.done) ≡ true
  pub written :
      is_shut s.conn.write_done ≡ true → s.conn.native.writing ≡ true → is_shut s.conn.done ≡ true
  pub why_written :
      is_shut s.conn.write_done ≡ true → (is_shut s.conn.close || is_shut s.conn.done) ≡ true
  pub unstarted :
      s.started ≡ false
      → (is_shut s.conn.ready ≡ false)
        × (is_shut s.conn.handshake ≡ false)
        × (is_early s.reader ≡ true)
        × (is_early s.writer ≡ true)

starts-Owned :
    (r w : Bool) (s : System) (accepted : Bool)
    → Sound s.conn
    → Owned s
    → Owned (step r w s (starts accepted))
unfolding step start terminate
starts-Owned r w s true u v = ground arith
starts-Owned r w s false u v = ground arith

quiet-Owned :
    (r w : Bool) (s : System)
    → Owned s
    → (prefer : Bool)
    → Owned (step r w s hooks)
      × Owned (step r w s (closes prefer))
      × Owned (step r w s stream_ready)
      × Owned (step r w s headers_received)
unfolding step set_on_terminate close_conn on_stream_ready on_response_headers_received
quiet-Owned r w s v prefer = (ground arith, ground arith, ground arith, ground arith)

called-Owned :
    (r w : Bool) (s : System)
    → Owned s
    → Owned (step r w s read_called) × Owned (step r w s write_called)
unfolding step
called-Owned r w s v = (ground arith, ground arith)

reads-Owned :
    (r w : Bool) (s : System) (b : Branch) (p : Phase)
    → s.reader ≡ p
    → Sound s.conn
    → Owned s
    → Owned (step r w s (reads b))
unfolding step read_step select pass_gate begins await cancel_locked
reads-Owned r w s b (finished x) e u v = ground arith
reads-Owned r w s b queueing e u v = ground arith
reads-Owned r w s b gating e u v = ground arith
reads-Owned r w s b starting e u v = ground arith
reads-Owned r w s b waiting e u v = ground arith
reads-Owned r w s b expiring e u v = ground arith
reads-Owned r w s b (leaving x) e u v = ground arith

writes-Owned :
    (r w : Bool) (s : System) (b : Branch) (p : Phase)
    → s.writer ≡ p
    → Sound s.conn
    → Owned s
    → Owned (step r w s (writes b))
unfolding step write_step select pass_gate begins await cancel_locked
writes-Owned r w s b (finished x) e u v = ground arith
writes-Owned r w s b queueing e u v = ground arith
writes-Owned r w s b gating e u v = ground arith
writes-Owned r w s b starting e u v = ground arith
writes-Owned r w s b waiting e u v = ground arith
writes-Owned r w s b expiring e u v = ground arith
writes-Owned r w s b (leaving x) e u v = ground arith

read_completed-Owned :
    (r w : Bool) (s : System) (n : ℕ) (b : Branch)
    → Sound s.conn
    → Owned s
    → Owned (step r w s (read_completed n b))
unfolding step on_read_completed terminate
read_completed-Owned r w s zero b u v = ground arith
read_completed-Owned r w s (suc n) by_close u v = ground arith
read_completed-Owned r w s (suc n) b u v = ground arith

write_completed-Owned :
    (r w : Bool) (s : System) (n : ℕ) (b : Branch)
    → Sound s.conn
    → Owned s
    → Owned (step r w s (write_completed n b))
unfolding step on_write_completed
write_completed-Owned r w s n by_close u v = ground arith
write_completed-Owned r w s n b u v = ground arith

ends-Owned :
    (r w : Bool) (s : System) (t : Terminal) → Sound s.conn → Owned s → Owned (step r w s (ends t))
unfolding step on_terminal terminate
ends-Owned r w s t u v = ground arith

step-Owned : (r w : Bool) (s : System) (e : Event) → Sound s.conn → Owned s → Owned (step r w s e)
step-Owned r w s (starts accepted) u v = starts-Owned r w s accepted u v
step-Owned r w s hooks u v = (quiet-Owned r w s v true).0
step-Owned r w s (closes prefer) u v = (quiet-Owned r w s v prefer).1
step-Owned r w s stream_ready u v = (quiet-Owned r w s v true).2
step-Owned r w s headers_received u v = (quiet-Owned r w s v true).3
step-Owned r w s read_called u v = (called-Owned r w s v).0
step-Owned r w s write_called u v = (called-Owned r w s v).1
step-Owned r w s (reads b) u v = reads-Owned r w s b s.reader refl u v
step-Owned r w s (writes b) u v = writes-Owned r w s b s.writer refl u v
step-Owned r w s (read_completed n b) u v = read_completed-Owned r w s n b u v
step-Owned r w s (write_completed n b) u v = write_completed-Owned r w s n b u v
step-Owned r w s (ends t) u v = ends-Owned r w s t u v

run-Owned :
    (r w : Bool) (s : System) (es : List Event) → Sound s.conn → Owned s → Owned (run r w s es)
unfolding run
run-Owned r w s [] u v = v
run-Owned r w s (e ∷ es) u v =
    run-Owned r w (step r w s e) es (step-Sound r w s e u) (step-Owned r w s e u v)

-- After any history, while the native stream holds the slice of a Read, that Read has not returned;
-- and while it holds the slice of a Write, that Write has not returned unless the stream is done.
pub run-initial-Owned :
    (r w : Bool) (es : List Event)
    → let s = run r w initial es in
      (s.conn.native.reading ≡ true → is_waiting s.reader ≡ true)
      × (s.conn.native.writing ≡ true → (is_waiting s.writer || is_shut s.conn.done) ≡ true)
unfolding create_conn
run-initial-Owned r w es =
    let v = run-Owned r w initial es (unfold create_conn in ground arith) (ground arith) in
    (v.reader_waits, v.writer_waits)

-- The exception for Write does occur: whenever a Write waits for its native call and a native read
-- reports the end of the response, Write returns io.EOF while the native stream still holds its slice.
pub write_returns_early :
    (r w : Bool) (s : System)
    → Sound s.conn
    → s.conn.done_once ≡ false
    → s.conn.native.reading ≡ true
    → s.conn.native.writing ≡ true
    → s.writer ≡ waiting
    → let t = run r w s (read_completed 0 by_done ∷ writes by_done ∷ writes by_done ∷ []) in
      (t.writer ≡ finished (err eof)) × (t.conn.native.writing ≡ true)
unfolding run step on_read_completed terminate write_step await
write_returns_early r w s u fresh reading writing waits = ground arith
