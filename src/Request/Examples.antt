-- ===== src/Request/Examples.antt =====
-- A streaming request in a concrete history.
use cronet_go.Base.{◌≡◌, refl, List, [], ◌∷◌, true, false, eof}
use cronet_go.Conn.{shut}
use cronet_go.Request.{
  response_started, read_completed, upload_asked, cleanup, finish, starting, start_reading,
  cleaning_up, on_callback, run_task, read_round, taken, new_request, Event, start_called,
  read_called, posts, posts_terminal, upload_ends, runs, run_next, step, run, initial,
}
use cronet_go.Request.Runs.{Whole, run-initial-Whole, drained_request}

-- An upload that is over after the terminal callback.
abbrev history : List Event
history =
    start_called
    ∷ runs true
    ∷ posts upload_asked
    ∷ posts (response_started false true)
    ∷ runs true
    ∷ runs true
    ∷ posts (read_completed (1 ∷ []))
    ∷ posts_terminal eof
    ∷ runs true
    ∷ runs true
    ∷ read_called 8
    ∷ upload_ends
    ∷ runs true
    ∷ runs true
    ∷ []

run-initial-Whole_example : Whole (run initial history)
run-initial-Whole_example = run-initial-Whole history

drained_request_example :
    let r = (run initial history).request in
    (r.native.destroys ≡ 1) × (r.done ≡ shut) × (r.done_calls ≡ 1)
unfolding run step run_next run_task starting on_callback start_reading finish cleanup cleaning_up
    read_round taken new_request
drained_request_example = drained_request history refl refl refl
