-- ===== src/Batch.antt =====
-- browser_xhttp.go, browserBatch and browserBatchReader: the bounded buffer between the application's
-- writes and the upload worker. Each function is one round of the code under the buffer's lock; the
-- loops of writeContext and drain are runs of such rounds, which a schedule interleaves.
pub mod Invariant
pub mod Wakeup
pub mod Progress
pub mod Reader
pub mod Taking
mod Examples
use cronet_go.Base.{
  ℕ, suc, ◌+◌, ◌-◌, List, [], ◌∷◌, ◌++◌, Option, none, some, Bool, true, false, min, ltb,
  if◌then◌else◌, length, take, drop, Error, eof, closed_pipe,
}

-- `notify` counts the channels made so far: signalLocked closes the current one and makes the next,
-- which wakes all who wait on the current one.
pub record Batch : Type 0 where
  pub notify : ℕ
  pub buffered : List ℕ
  pub limit : ℕ
  pub closed : Bool
  pub close_err : Option Error

unfoldable pub new_batch : ℕ → Batch
new_batch limit = record {
  notify = 0;
  buffered = [];
  limit = if ltb limit 1 then 1 else limit;
  closed = false;
  close_err = none;
}

abbrev pub signal : Batch → Batch
signal b = record b { notify = suc b.notify }

-- How a round leaves its loop: it returns, goes round at once, or waits for a channel to close.
pub data Round (A : Type 0) : Type 0 where
  returns : A → Round A
  again : Round A
  waits : ℕ → Round A

abbrev pub or_closed_pipe : Option Error → Error
or_closed_pipe none = closed_pipe
or_closed_pipe (some e) = e

pub record WriteRound : Type 0 where
  pub batch : Batch
  pub total : ℕ
  pub outcome : Round (Option Error)

-- As many bytes as there is room for, or a wait for room.
unfoldable pub accept_open : Batch → List ℕ → ℕ → WriteRound
accept_open b p total =
    let n = min (b.limit - length b.buffered) (length p - total) in
    if ltb (length b.buffered) b.limit
    then record {
      batch = signal (record b { buffered = b.buffered ++ take n (drop total p) });
      total = total + n;
      outcome = again;
    }
    else record { batch = b; total = total; outcome = waits b.notify }

unfoldable pub accept : Option Error → Batch → List ℕ → ℕ → WriteRound
accept (some e) b p total = record { batch = b; total = total; outcome = returns (some e) }
accept none b p total =
    if b.closed
    then record { batch = b; total = total; outcome = returns (some (or_closed_pipe b.close_err)) }
    else accept_open b p total

-- One round of writeContext over `p`, of which `total` bytes are accepted; `ctx` is ctx.Err().
unfoldable pub write_round : Option Error → Batch → List ℕ → ℕ → WriteRound
write_round ctx b p total =
    if ltb total (length p)
    then accept ctx b p total
    else record { batch = b; total = total; outcome = returns none }

-- What drain returns: bytes, or an error.
pub data Drained : Type 0 where
  bytes : List ℕ → Drained
  ends : Error → Drained

pub record DrainRound : Type 0 where
  pub batch : Batch
  pub outcome : Round Drained

-- One round of drain.
unfoldable pub drain_round : Batch → DrainRound
drain_round b =
    let n = if ltb b.limit (length b.buffered) then b.limit else length b.buffered in
    if ltb 0 (length b.buffered)
    then record {
      batch = signal (record b { buffered = drop n b.buffered });
      outcome = returns (bytes (take n b.buffered));
    }
    else if b.closed
    then record { batch = b; outcome = returns (ends eof) }
    else record { batch = b; outcome = waits b.notify }

-- closeWithError; Close is closeWithError(nil).
unfoldable pub close_with_error : Option Error → Batch → Batch
close_with_error e b = if b.closed then b else signal (record b { closed = true; close_err = e })

-- One Write in progress, the upload worker, and anybody who closes.
pub data Event : Type 0 where
  writes : Option Error → Event
  drains : Event
  closes : Option Error → Event

pub record System : Type 0 where
  pub batch : Batch
  pub total : ℕ
  pub returned : Option (Option Error)
  pub drained : List (List ℕ)

abbrev pub after_write : System → WriteRound → System
after_write s r = record s {
  batch = r.batch;
  total = r.total;
  returned = elim r.outcome [ returns e ↦ some e | again ↦ none | waits n ↦ none ];
}

abbrev pub after_drain : System → DrainRound → System
after_drain s r = record s {
  batch = r.batch;
  drained = elim r.outcome [
    | returns (bytes c) ↦ s.drained ++ (c ∷ [])
    | returns (ends e) ↦ s.drained
    | again ↦ s.drained
    | waits n ↦ s.drained
  ];
}

-- A Write that has returned takes no more rounds.
unfoldable pub step : List ℕ → System → Event → System
step p s (writes ctx) = elim s.returned [
  | some e ↦ s
  | none ↦ after_write s (write_round ctx s.batch p s.total)
]
step p s drains = after_drain s (drain_round s.batch)
step p s (closes e) = record s { batch = close_with_error e s.batch }

unfoldable pub run : List ℕ → System → List Event → System
run p s [] = s
run p s (e ∷ es) = run p (step p s e) es

abbrev pub start : ℕ → System
start limit = record { batch = new_batch limit; total = 0; returned = none; drained = [] }
