-- ===== src/Conn/Threads.antt =====
-- bidirectional_conn.go, Read and Write: one reader and one writer (the semaphores admit one of each),
-- the native callbacks and Close, in any order. An event that is not possible changes nothing, and
-- where several branches of a select are open the event says which one is taken.
use cronet_go.Base.{
  ℕ, zero, suc, List, [], ◌∷◌, Option, none, some, Bool, true, false, if◌then◌else◌, not, ◌&&◌,
  Error, Result, ok, err, eof, net_closed, os_deadline_exceeded,
}
use cronet_go.Conn.{
  Chan, is_shut, close_once, Conn, cancel_locked, terminate, start, set_on_terminate, close_conn,
  on_stream_ready, on_response_headers_received, Terminal, on_terminal, create_conn,
}

-- Where a Read or a Write stands.
pub data Phase : Type 0 where
  -- It has returned, or has not been called.
  finished : Result ℕ → Phase
  -- At the first select, for the semaphore; in waitReady; before the native call under the lock.
  queueing gating starting : Phase
  -- In the select after the native call; in the loop after a deadline; before `<-c.readDone`.
  waiting expiring : Phase
  leaving : Error → Phase

pub data Branch : Type 0 where
  by_gate by_done by_close by_deadline : Branch

abbrev or_eof : Option Error → Error
or_eof none = eof
or_eof (some e) = e

-- `case <-c.close`, `case <-c.done` and the case that lets the call go on; `stay` while it waits.
unfoldable pub select : Bool → Phase → Phase → Branch → Conn → Phase
select gate go stay by_gate c = if gate then go else stay
select gate go stay by_done c = if is_shut c.done then finished (err (or_eof c.err)) else stay
select gate go stay by_close c = if is_shut c.close then finished (err net_closed) else stay
select gate go stay by_deadline c = stay

-- The select of waitReady has a case for the deadline too.
unfoldable pub pass_gate : Bool → Branch → Conn → Phase
pass_gate gate by_deadline c = finished (err os_deadline_exceeded)
pass_gate gate b c = select gate starting gating b c

-- Under the lock: a closed channel ends the call, and the default makes the native call.
unfoldable pub begins : Conn → Bool
begins c = not (is_shut c.close) && not (is_shut c.done)

pub record System : Type 0 where
  pub conn : Conn
  pub reader : Phase
  pub writer : Phase
  -- Start has been called, and setOnTerminate.
  pub started : Bool
  pub hooked : Bool

-- The rest of a call that waits for the native one: `released` is its readDone or writeDone channel.
unfoldable pub await : Branch → Conn → Chan → Phase → Phase × Conn
await by_deadline c released waiting = (expiring, cancel_locked c)
await by_done c released waiting = (if is_shut c.done then leaving (or_eof c.err) else waiting, c)
await by_close c released waiting = (if is_shut c.close then leaving net_closed else waiting, c)
await b c released expiring =
    (if is_shut c.done then finished (err os_deadline_exceeded) else expiring, c)
await b c released (leaving e) = (if is_shut released then finished (err e) else leaving e, c)
await b c released p = (p, c)

abbrev with_reader : System → Phase × Conn → System
with_reader s (p, c) = record s { reader = p; conn = c }

abbrev with_writer : System → Phase × Conn → System
with_writer s (p, c) = record s { writer = p; conn = c }

abbrev pub read_call : Conn → Conn
read_call c = record c { native = record (c.native) { reading = true } }

abbrev pub write_call : Conn → Conn
write_call c = record c { native = record (c.native) { writing = true } }

-- A step of Read. `gate` says whether the channel of waitReady is closed.
unfoldable pub read_step : Bool → Branch → System → Phase → System
read_step gate b s (finished r) = s
read_step gate b s queueing = record s { reader = select true gating queueing b s.conn }
read_step gate b s gating = record s { reader = pass_gate gate b s.conn }
read_step gate b s starting =
    if begins s.conn
    then record s { reader = waiting; conn = read_call s.conn }
    else record s { reader = select false starting starting b s.conn }
read_step gate b s p = with_reader s (await b s.conn s.conn.read_done p)

unfoldable pub write_step : Bool → Branch → System → Phase → System
write_step gate b s (finished r) = s
write_step gate b s queueing = record s { writer = select true gating queueing b s.conn }
write_step gate b s gating = record s { writer = pass_gate gate b s.conn }
write_step gate b s starting =
    if begins s.conn
    then record s { writer = waiting; conn = write_call s.conn }
    else record s { writer = select false starting starting b s.conn }
write_step gate b s p = with_writer s (await b s.conn s.conn.write_done p)

-- `case c.read <- bytesRead`: a waiting Read takes the count, one past its deadline drops it.
abbrev pub hand_over : ℕ → Phase → Option Phase
hand_over n waiting = some (finished (ok n))
hand_over n expiring = some expiring
hand_over n p = none

abbrev pub read_over : Conn → Conn
read_over c = record c { native = record (c.native) { reading = false } }

abbrev pub write_over : Conn → Conn
write_over c = record c { native = record (c.native) { writing = false } }

abbrev pub mark_read_done : Conn → Conn
mark_read_done c = record c {
  read_done = close_once c.read_done_once c.read_done;
  read_done_once = true;
}

abbrev pub mark_write_done : Conn → Conn
mark_write_done c = record c {
  write_done = close_once c.write_done_once c.write_done;
  write_done_once = true;
}

-- OnReadCompleted.
unfoldable pub on_read_completed : ℕ → Branch → System → System
on_read_completed zero b s = record s { conn = terminate eof (read_over s.conn) }
on_read_completed (suc n) by_close s =
    if is_shut s.conn.close then record s { conn = mark_read_done (read_over s.conn) } else s
on_read_completed (suc n) by_done s =
    if is_shut s.conn.done then record s { conn = mark_read_done (read_over s.conn) } else s
on_read_completed (suc n) b s = elim (hand_over (suc n) s.reader) [
  | none ↦ s
  | some p ↦ record s { conn = read_over s.conn; reader = p }
]

-- OnWriteCompleted; `n` is the length that Write returns.
unfoldable pub on_write_completed : ℕ → Branch → System → System
on_write_completed n by_close s =
    if is_shut s.conn.close then record s { conn = mark_write_done (write_over s.conn) } else s
on_write_completed n by_done s =
    if is_shut s.conn.done then record s { conn = mark_write_done (write_over s.conn) } else s
on_write_completed n b s = elim (hand_over n s.writer) [
  | none ↦ s
  | some p ↦ record s { conn = write_over s.conn; writer = p }
]

pub data Event : Type 0 where
  starts : Bool → Event
  hooks : Event
  closes : Bool → Event
  stream_ready headers_received : Event
  read_called write_called : Event
  reads writes : Branch → Event
  read_completed write_completed : ℕ → Branch → Event
  ends : Terminal → Event

abbrev call_again : Phase → Phase
call_again (finished r) = queueing
call_again p = p

-- The caller makes one Start and one setOnTerminate. Callbacks come from a stream that was started,
-- and a completion only from a native call that is under way.
unfoldable pub step : Bool → Bool → System → Event → System
step rw ww s (starts accepted) =
    if s.started then s else record s { conn = (start accepted s.conn).1; started = true }
step rw ww s hooks =
    if s.hooked then s else record s { conn = set_on_terminate s.conn; hooked = true }
step rw ww s (closes prefer) = record s { conn = (close_conn prefer s.conn).1 }
step rw ww s stream_ready = if s.started then record s { conn = on_stream_ready s.conn } else s
step rw ww s headers_received =
    if s.started then record s { conn = on_response_headers_received s.conn } else s
step rw ww s read_called = record s { reader = call_again s.reader }
step rw ww s write_called = record s { writer = call_again s.writer }
step rw ww s (reads b) =
    read_step (is_shut (if rw then s.conn.handshake else s.conn.ready)) b s s.reader
step rw ww s (writes b) =
    write_step (is_shut (if ww then s.conn.handshake else s.conn.ready)) b s s.writer
step rw ww s (read_completed n b) = if s.conn.native.reading then on_read_completed n b s else s
step rw ww s (write_completed n b) = if s.conn.native.writing then on_write_completed n b s else s
step rw ww s (ends t) = record s { conn = on_terminal t s.conn }

unfoldable pub run : Bool → Bool → System → List Event → System
run rw ww s [] = s
run rw ww s (e ∷ es) = run rw ww (step rw ww s e) es

abbrev pub initial : System
initial = record {
  conn = create_conn;
  reader = finished (ok 0);
  writer = finished (ok 0);
  started = false;
  hooked = false;
}
