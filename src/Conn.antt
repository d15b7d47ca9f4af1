-- ===== src/Conn.antt =====
-- bidirectional_conn.go: a net.Conn over a native bidirectional stream. This file has the state and
-- the operations that change it; Conn/Threads.antt has Read and Write, which wait in several places.
pub mod Threads
pub mod Channels
pub mod Ownership
pub mod Notice
mod Examples
use cronet_go.Base.{
  ℕ, suc, ◌+◌, List, [], ◌∷◌, ◌++◌, Option, none, some, Bool, true, false, if◌then◌else◌, not, ◌&&◌,
  ◌||◌, ◌==◌, net_error, Error, eof, canceled, net_closed, os_invalid, os_deadline_exceeded,
}

-- A channel that is only ever closed. To close it twice panics.
pub data Chan : Type 0 where
  live shut broken : Chan

abbrev pub close_chan : Chan → Chan
close_chan live = shut
close_chan shut = broken
close_chan broken = broken

abbrev pub is_shut : Chan → Bool
is_shut live = false
is_shut shut = true
is_shut broken = true

-- A channel under a sync.Once.
abbrev pub close_once : Bool → Chan → Chan
close_once true c = c
close_once false c = close_chan c

-- What the native stream was asked to do, and which of the caller's slices it holds.
pub record Native : Type 0 where
  pub cancels : ℕ
  pub destroys : ℕ
  pub reading : Bool
  pub writing : Bool
  -- Cancel was called on a stream that had been destroyed.
  pub stale_cancel : Bool

pub record Conn : Type 0 where
  pub native : Native
  pub cancelled : Bool
  pub close : Chan
  pub done : Chan
  pub err : Option Error
  pub ready : Chan
  pub handshake : Chan
  pub read_done : Chan
  pub write_done : Chan
  pub done_once : Bool
  pub read_done_once : Bool
  pub write_done_once : Bool
  pub ready_once : Bool
  pub handshake_once : Bool
  -- Whether a callback is set, and how often it has run.
  pub on_terminate : Bool
  pub notified : ℕ

-- CreateConn.
unfoldable pub create_conn : Conn
create_conn = record {
  native = record {
    cancels = 0;
    destroys = 0;
    reading = false;
    writing = false;
    stale_cancel = false;
  };
  cancelled = false;
  close = live;
  done = live;
  err = none;
  ready = live;
  handshake = live;
  read_done = live;
  write_done = live;
  done_once = false;
  read_done_once = false;
  write_done_once = false;
  ready_once = false;
  handshake_once = false;
  on_terminate = false;
  notified = 0;
}

abbrev pub is_destroyed : Native → Bool
is_destroyed n = not (n.destroys == 0)

abbrev pub stream_cancel : Native → Native
stream_cancel n = record n {
  cancels = suc n.cancels;
  stale_cancel = if is_destroyed n then true else n.stale_cancel;
}

abbrev pub stream_destroy : Native → Native
stream_destroy n = record n { destroys = suc n.destroys }

unfoldable pub cancel_locked : Conn → Conn
cancel_locked c =
    if c.cancelled then c else record c { cancelled = true; native = stream_cancel c.native }

-- The body of doneOnce.Do in terminate, and the callback that runs after the lock is released.
unfoldable pub finish : Error → Conn → Conn
finish e c = record c {
  done_once = true;
  err = some e;
  done = close_chan c.done;
  native = stream_destroy c.native;
  notified = if c.on_terminate then suc c.notified else c.notified;
}

unfoldable pub terminate : Error → Conn → Conn
unfolding finish
terminate e c =
    let c' = record c {
      read_done = close_once c.read_done_once c.read_done;
      read_done_once = true;
      write_done = close_once c.write_done_once c.write_done;
      write_done_once = true;
      cancelled = true;
    } in
    if c.done_once then c' else finish e c'

-- Start; `accepted` is what the native call returns.
unfoldable pub start : Bool → Conn → Option Error × Conn
unfolding terminate
start true c = (none, c)
start false c = (some os_invalid, terminate os_invalid c)

unfoldable pub set_on_terminate : Conn → Conn
set_on_terminate c =
    if is_shut c.done
    then record c { notified = suc c.notified }
    else record c { on_terminate = true }

-- Close. With both channels closed Go's select takes either branch, here the one that is preferred.
unfoldable pub close_conn : Bool → Conn → Option Error × Conn
unfolding cancel_locked
close_conn prefer_close c =
    if is_shut c.close && (prefer_close || not (is_shut c.done))
    then (some net_closed, c)
    else if is_shut c.done
    then (none, c)
    else (none, cancel_locked (record c { close = close_chan c.close }))

unfoldable pub on_stream_ready : Conn → Conn
on_stream_ready c = record c { ready = close_once c.ready_once c.ready; ready_once = true }

unfoldable pub on_response_headers_received : Conn → Conn
on_response_headers_received c = record c {
  handshake = close_once c.handshake_once c.handshake;
  handshake_once = true;
}

-- The callbacks after which the native stream holds no slice of the caller's.
pub data Terminal : Type 0 where
  succeeded cancelled_by_peer : Terminal
  failed : ℕ → Terminal

abbrev pub terminal_error : Terminal → Error
terminal_error succeeded = eof
terminal_error cancelled_by_peer = canceled
terminal_error (failed code) = net_error code

-- OnSucceeded, OnFailed and OnCanceled.
unfoldable pub on_terminal : Terminal → Conn → Conn
unfolding terminate
on_terminal t c =
    terminate (terminal_error t)
      (record c { native = record (c.native) { reading = false; writing = false } })

-- The outcomes among which the select of waitReady may choose; with none it waits.
abbrev pub when {ℓ} : {A : Type ℓ} → Bool → A → List A → List A
when true a rest = a ∷ rest
when false a rest = rest

unfoldable pub wait_ready : Bool → Bool → Conn → List (Option Error)
wait_ready wait_headers expired c =
    when (is_shut (if wait_headers then c.handshake else c.ready)) none (
      when (is_shut c.done) c.err
        (when (is_shut c.close) (some net_closed) (when expired (some os_deadline_exceeded) [])))

-- WaitForHeaders: the headers have come, or the error.
unfoldable pub wait_for_headers : Conn → List (Option Error)
wait_for_headers c =
    when (is_shut c.handshake) none
      (when (is_shut c.done) c.err (when (is_shut c.close) (some net_closed) []))
