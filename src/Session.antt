-- ===== src/Session.antt =====
-- browser_xhttp.go, browserXHTTPConn: a session's Write over the upload buffer while its deadline is
-- replaced, its Read over the download, its first error and its one Close.
pub mod Writing
pub mod Clients
mod Examples
use cronet_go.Base.{
  ℕ, ◌+◌, List, [], ◌∷◌, ◌++◌, Option, none, some, Bool, true, false, ◌&&◌, if◌then◌else◌, length,
  take, drop, Error, canceled, deadline_exceeded, net_closed, closed_pipe, eof, timeout,
}
use cronet_go.Batch
use cronet_go.Batch.{Batch}

-- errors.Is with context.Canceled and context.DeadlineExceeded.
abbrev pub is_canceled : Error → Bool
is_canceled canceled = true
is_canceled e = false

abbrev pub is_deadline : Error → Bool
is_deadline deadline_exceeded = true
is_deadline e = false

-- What the two locked parts of a round see: c.err before the call, and after it c.err, whether the
-- deadline's context was replaced, and whether the session's context is still open.
pub record Seen : Type 0 where
  pub before : Option Error
  pub after : Option Error
  pub replaced : Bool
  pub open_ctx : Bool

-- How a round ends: with another one, or with the error that is returned.
pub data Verdict : Type 0 where
  retries : Verdict
  gives : Option Error → Verdict

abbrev pub or_session : Option Error → Error → Error
or_session none e = e
or_session (some s) e = s

judge : Seen → Error → Verdict
judge seen e =
    if is_canceled e && (seen.replaced && seen.open_ctx)
    then retries
    else (if is_deadline e then gives (some timeout) else gives (some e))

unfoldable pub settle : Seen → Option Error → Verdict
unfolding judge
settle seen none = gives none
settle seen (some e) = judge seen (or_session seen.after e)

-- One round of Write: what it sees, and what happens in the upload buffer during its writeContext.
pub record Attempt : Type 0 where
  pub seen : Seen
  pub events : List Batch.Event

-- Write has returned, or still waits; `drained` are the pieces that the worker took meanwhile.
pub record Written : Type 0 where
  pub batch : Batch
  pub total : ℕ
  pub drained : List (List ℕ)
  pub returned : Option (Option Error)

attempt_on : List ℕ → Written → List Batch.Event → Batch.System
attempt_on p w es =
    Batch.run (drop w.total p)
      (record { batch = w.batch; total = 0; returned = none; drained = w.drained }) es

abbrev pub carry : Written → Batch.System → Option (Option Error) → Written
carry w s result = record {
  batch = s.batch;
  total = w.total + s.total;
  drained = s.drained;
  returned = result;
}

-- What a round makes of the result of its writeContext, with the rest of the loop as a function.
conclude : Written → Batch.System → Seen → (Written → Written) → Option (Option Error) → Written
conclude w s seen loop none = carry w s none
conclude w s seen loop (some e) = elim (settle seen e) [
  | retries ↦ loop (carry w s none)
  | gives r ↦ carry w s (some r)
]

-- The check of c.err at the top of a round.
unless_failed : Option Error → Written → Written → Written
unless_failed (some e) w next = record w { returned = some (some e) }
unless_failed none w next = next

unfoldable pub write_loop : List ℕ → Written → List Attempt → Written
unfolding attempt_on conclude unless_failed
write_loop p w [] = w
write_loop p w (a ∷ rest) =
    let s = attempt_on p w a.events in
    unless_failed a.seen.before w (conclude w s a.seen (λ v. write_loop p v rest) s.returned)

abbrev pub start_write : Batch → Written
start_write b = record { batch = b; total = 0; drained = []; returned = none }
