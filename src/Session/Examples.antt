-- ===== src/Session/Examples.antt =====
-- The theorems on sessions and clients at concrete runs, and tests.
use cronet_go.Base.{
  ◌≡◌, refl, List, [], ◌∷◌, none, some, true, false, codes, canceled, timeout, deadline_exceeded,
}
use cronet_go.Batch
use cronet_go.Batch.{
  new_batch, write_round, accept, accept_open, drain_round, close_with_error, step, run,
}
use cronet_go.Session.{
  Seen, Attempt, settle, judge, gives, write_loop, start_write, attempt_on, conclude, unless_failed,
}
use cronet_go.Session.Writing.{Faithful, write_loop-start_write-Faithful}
use cronet_go.Session.Clients.{
  XEvent, dials, advances, goes_on, waits_for, uses_engine, ends_upload, xrun, xstep, new_client,
  close_next, perform, await_session, advance, uses, at_session,
}
use cronet_go.Session.Clients.Sound.{Safe, xrun-new-Safe}

abbrev quiet : Seen
quiet = record { before = none; after = none; replaced = false; open_ctx = true }

abbrev replaced_deadline : Seen
replaced_deadline = record quiet { replaced = true }

-- Two bytes fit; the old context ends while the rest waits; after a drain the second round ends.
abbrev two_rounds : List Attempt
two_rounds =
    record {
      seen = replaced_deadline;
      events =
          Batch.writes none ∷ Batch.writes none ∷ Batch.writes (some canceled) ∷ Batch.drains ∷ [];
    }
    ∷ record { seen = quiet; events = Batch.writes none ∷ Batch.writes none ∷ [] }
    ∷ []

retried :
    ((write_loop (codes "abc") (start_write (new_batch 2)) two_rounds).returned ≡ some none)
    × ((write_loop (codes "abc") (start_write (new_batch 2)) two_rounds).total ≡ 3)
unfolding write_loop attempt_on conclude unless_failed settle judge run step write_round accept
    accept_open drain_round new_batch
retried = (refl, refl)

deadline_passed : settle replaced_deadline (some deadline_exceeded) ≡ gives (some timeout)
unfolding settle judge
deadline_passed = refl

write_loop-start_write-Faithful_example :
    Faithful [] (codes "abc") (write_loop (codes "abc") (start_write (new_batch 2)) two_rounds)
unfolding new_batch
write_loop-start_write-Faithful_example =
    write_loop-start_write-Faithful (new_batch 2) (codes "abc") two_rounds

-- A session is dialled, the client closes, the session's Close runs, and then the engine goes.
abbrev one_session : List XEvent
one_session =
    dials true
    ∷ uses_engine 0
    ∷ advances
    ∷ dials false
    ∷ goes_on 0
    ∷ goes_on 0
    ∷ goes_on 0
    ∷ goes_on 0
    ∷ goes_on 0
    ∷ goes_on 0
    ∷ goes_on 0
    ∷ goes_on 0
    ∷ goes_on 0
    ∷ ends_upload 0
    ∷ goes_on 0
    ∷ waits_for 0
    ∷ advances
    ∷ uses_engine 0
    ∷ goes_on 0
    ∷ waits_for 0
    ∷ advances
    ∷ uses_engine 0
    ∷ advances
    ∷ advances
    ∷ []

ended :
    ((xrun (new_client true true) one_session).engine_destroyed ≡ true)
    × ((xrun (new_client true true) one_session).executor_destroyed ≡ true)
    × ((xrun (new_client true true) one_session).after_destroy ≡ 0)
unfolding xrun xstep new_client close_next perform await_session advance uses at_session
ended = (refl, refl, refl)

xrun-new-Safe_example : Safe (xrun (new_client true true) one_session)
xrun-new-Safe_example = xrun-new-Safe true true one_session
