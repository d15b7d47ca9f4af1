-- ===== src/Conn/Channels.antt =====
-- The channels, the callback and the native stream of a connection are each ended once.
use cronet_go.Base.{
  ℕ, zero, suc, ◌≡◌, ◌≤◌, refl, List, [], ◌∷◌, none, Bool, true, false, if◌then◌else◌, ◌≢◌, ◌⊎◌,
  inl, inr, arith, Error,
}
use cronet_go.Conn.{
  Chan, live, shut, broken, is_shut, Conn, cancel_locked, terminate, start, set_on_terminate,
  close_conn, on_stream_ready, on_response_headers_received, on_terminal, create_conn,
}
use cronet_go.Conn.Threads.{
  System, Event, starts, hooks, closes, stream_ready, headers_received, read_called, write_called,
  reads, writes, read_completed, write_completed, ends, await, mark_read_done, mark_write_done,
  read_step, write_step, on_read_completed, on_write_completed, step, run, initial, Phase, Branch,
  by_done, by_close, by_deadline, finished, queueing, gating, starting, waiting, expiring, leaving,
}

abbrev pub once : Bool → Chan
once fired = if fired then shut else live

pub record Sound (c : Conn) : Type 0 where
  -- No channel is closed twice.
  pub done_is : c.done ≡ once c.done_once
  pub read_done_is : c.read_done ≡ once c.read_done_once
  pub write_done_is : c.write_done ≡ once c.write_done_once
  pub ready_is : c.ready ≡ once c.ready_once
  pub handshake_is : c.handshake ≡ once c.handshake_once
  pub close_is : c.close ≢ broken
  -- The stream is destroyed when `done` closes, once, and then has an error.
  pub destroyed : c.native.destroys ≡ (if c.done_once then 1 else 0)
  pub failed : c.done_once ≡ true → c.err ≢ none
  pub released : c.done_once ≡ true → (c.read_done_once ≡ true) × (c.write_done_once ≡ true)
  -- Cancel is called at most once, and never on a destroyed stream.
  pub ended : c.done_once ≡ true → c.cancelled ≡ true
  pub cancels : c.native.cancels ≤ (if c.cancelled then 1 else 0)
  pub fresh_cancel : c.native.stale_cancel ≡ false
  pub close_cancels : is_shut c.close ≡ true → c.cancelled ≡ true

terminate-Sound : (e : Error) (c : Conn) → Sound c → Sound (terminate e c)
unfolding terminate
terminate-Sound e c v = ground arith

cancel_locked-Sound : (c : Conn) → Sound c → Sound (cancel_locked c)
unfolding cancel_locked
cancel_locked-Sound c v = ground arith

start-Sound : (accepted : Bool) (c : Conn) → Sound c → Sound (start accepted c).1
unfolding start
start-Sound true c v = v
start-Sound false c v = terminate-Sound _ c v

set_on_terminate-Sound : (c : Conn) → Sound c → Sound (set_on_terminate c)
unfolding set_on_terminate
set_on_terminate-Sound c v = ground arith

close_conn-Sound : (prefer : Bool) (c : Conn) → Sound c → Sound (close_conn prefer c).1
unfolding close_conn
close_conn-Sound prefer c v = ground arith

ready-Sound : (c : Conn) → Sound c → Sound (on_stream_ready c)
unfolding on_stream_ready
ready-Sound c v = ground arith

headers-Sound : (c : Conn) → Sound c → Sound (on_response_headers_received c)
unfolding on_response_headers_received
headers-Sound c v = ground arith

-- Which slices the native stream holds has no part in it.
held-Sound :
    (c : Conn) (reading writing : Bool)
    → Sound c
    → Sound (record c { native = record (c.native) { reading = reading; writing = writing } })
held-Sound c reading writing v = ground arith

mark_read_done-Sound : (c : Conn) → Sound c → Sound (mark_read_done c)
mark_read_done-Sound c v = ground arith

mark_write_done-Sound : (c : Conn) → Sound c → Sound (mark_write_done c)
mark_write_done-Sound c v = ground arith

await_conn :
    (b : Branch) (c : Conn) (released : Chan) (p : Phase)
    → ((await b c released p).1 ≡ c) ⊎ ((await b c released p).1 ≡ cancel_locked c)
unfolding await
await_conn by_deadline c released waiting = inr refl
await_conn by_done c released waiting = inl refl
await_conn by_close c released waiting = inl refl
await_conn b c released expiring = inl refl
await_conn b c released (leaving e) = inl refl
await_conn b c released p = inl refl

await-Sound :
    (b : Branch) (c : Conn) (released : Chan) (p : Phase) → Sound c → Sound (await b c released p).1
await-Sound b c released p v = elim (await_conn b c released p) [
  | inl same ↦ rw same v
  | inr cancels ↦ rw cancels (cancel_locked-Sound c v)
]

read_step-Sound :
    (g : Bool) (b : Branch) (s : System) (p : Phase) → Sound s.conn → Sound (read_step g b s p).conn
unfolding read_step
read_step-Sound g b s (finished r) v = v
read_step-Sound g b s queueing v = v
read_step-Sound g b s gating v = v
read_step-Sound g b s starting v = ground (arith, held-Sound s.conn true s.conn.native.writing v)
read_step-Sound g b s p v = await-Sound b s.conn s.conn.read_done p v

write_step-Sound :
    (g : Bool) (b : Branch) (s : System) (p : Phase)
    → Sound s.conn
    → Sound (write_step g b s p).conn
unfolding write_step
write_step-Sound g b s (finished r) v = v
write_step-Sound g b s queueing v = v
write_step-Sound g b s gating v = v
write_step-Sound g b s starting v = ground (arith, held-Sound s.conn s.conn.native.reading true v)
write_step-Sound g b s p v = await-Sound b s.conn s.conn.write_done p v

on_read_completed-Sound :
    (n : ℕ) (b : Branch) (s : System) → Sound s.conn → Sound (on_read_completed n b s).conn
unfolding on_read_completed
on_read_completed-Sound zero b s v =
    terminate-Sound _ _ (held-Sound s.conn false s.conn.native.writing v)
on_read_completed-Sound (suc n) by_close s v =
    ground (arith, mark_read_done-Sound _ (held-Sound s.conn false s.conn.native.writing v))
on_read_completed-Sound (suc n) by_done s v =
    ground (arith, mark_read_done-Sound _ (held-Sound s.conn false s.conn.native.writing v))
on_read_completed-Sound (suc n) b s v =
    ground (arith, held-Sound s.conn false s.conn.native.writing v)

on_write_completed-Sound :
    (n : ℕ) (b : Branch) (s : System) → Sound s.conn → Sound (on_write_completed n b s).conn
unfolding on_write_completed
on_write_completed-Sound n by_close s v =
    ground (arith, mark_write_done-Sound _ (held-Sound s.conn s.conn.native.reading false v))
on_write_completed-Sound n by_done s v =
    ground (arith, mark_write_done-Sound _ (held-Sound s.conn s.conn.native.reading false v))
on_write_completed-Sound n b s v = ground (arith, held-Sound s.conn s.conn.native.reading false v)

pub step-Sound : (r w : Bool) (s : System) (e : Event) → Sound s.conn → Sound (step r w s e).conn
unfolding step on_terminal
step-Sound r w s (starts accepted) v = ground (arith, start-Sound accepted s.conn v)
step-Sound r w s hooks v = ground (arith, set_on_terminate-Sound s.conn v)
step-Sound r w s (closes prefer) v = close_conn-Sound prefer s.conn v
step-Sound r w s stream_ready v = ground (arith, ready-Sound s.conn v)
step-Sound r w s headers_received v = ground (arith, headers-Sound s.conn v)
step-Sound r w s read_called v = v
step-Sound r w s write_called v = v
step-Sound r w s (reads b) v = read_step-Sound _ b s s.reader v
step-Sound r w s (writes b) v = write_step-Sound _ b s s.writer v
step-Sound r w s (read_completed n b) v = ground (arith, on_read_completed-Sound n b s v)
step-Sound r w s (write_completed n b) v = ground (arith, on_write_completed-Sound n b s v)
step-Sound r w s (ends t) v = terminate-Sound _ _ (held-Sound s.conn false false v)

run-Sound : (r w : Bool) (s : System) (es : List Event) → Sound s.conn → Sound (run r w s es).conn
unfolding run
run-Sound r w s [] v = v
run-Sound r w s (e ∷ es) v = run-Sound r w (step r w s e) es (step-Sound r w s e v)

-- Whatever calls, callbacks, deadlines and closes happen, in any order and any number, on a connection
-- as CreateConn makes it: no channel is closed twice; the native stream is destroyed exactly when
-- `done` closes, and then there is an error to report and both of readDone and writeDone are closed;
-- Cancel is called at most once and never after Destroy.
pub run-initial-Sound : (r w : Bool) (es : List Event) → Sound (run r w initial es).conn
unfolding create_conn
run-initial-Sound r w es = run-Sound r w initial es (ground arith)
