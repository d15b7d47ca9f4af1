-- ===== src/Client/Examples.antt =====
-- A client in concrete histories.
use cronet_go.Base.{
  ◌≡◌, ◌<◌, refl, List, [], ◌∷◌, none, some, true, false, arith, net_closed, canceled, inl,
}
use cronet_go.Client.{
  closed, new_client, by_ctx, early, admit, engine_count, engine_index, Event, starts, makes,
  start_over, admits, creates, returns, releases, closes, goes_on, step, run, start_begins,
  engine_made, start_ends, create, dial_returns, release, mark_released, close_round,
}
use cronet_go.Client.Lifecycle.{Sound, run-new_client-Sound}
use cronet_go.Client.Closing.{Winds, run-Winds, do_close-closed}
use cronet_go.Client.Engines.{engine_index-engine_count, early-admit}

abbrev history : List Event
history = starts ∷ makes true ∷ start_over ∷ admits none ∷ creates ∷ closes ∷ []

abbrev drained_history : List Event
drained_history =
    starts ∷ makes true ∷ start_over ∷ admits none ∷ creates ∷ closes ∷ returns ∷ releases 0 ∷ []

run-new_client-Sound_example : Sound 1 (run 1 new_client history)
run-new_client-Sound_example = run-new_client-Sound 1 history (omega arith)

run-Winds_example :
    Winds (run 1 new_client history) (run 1 (run 1 new_client history) (admits none ∷ returns ∷ []))
unfolding run step start_begins engine_made start_ends admit create close_round new_client
run-Winds_example =
    run-Winds 1 (run 1 new_client history) (admits none ∷ returns ∷ []) (omega arith)
      (run-new_client-Sound 1 history (omega arith)) (inl refl)

do_close-closed_example :
    ((run 1 (run 1 new_client drained_history) (goes_on ∷ goes_on ∷ goes_on ∷ [])).state ≡ closed)
    × ((run 1 (run 1 new_client drained_history) (goes_on ∷ goes_on ∷ goes_on ∷ [])).destroys ≡ 1)
unfolding run step start_begins engine_made start_ends admit create close_round dial_returns release
    mark_released new_client
do_close-closed_example =
    do_close-closed 1 (run 1 new_client drained_history)
      (run-new_client-Sound 1 drained_history (omega arith)) refl (refl, refl, refl)

engine_in_range : engine_index 3 (engine_count 3 false) 7 < engine_count 3 false
engine_in_range = engine_index-engine_count 3 7 false

early_refused :
    let c = run 1 new_client history in
    (early by_ctx none (some canceled) c.state c ≡ some (some net_closed))
    × (admit (some canceled) c ≡ (some net_closed, c))
unfolding run step start_begins engine_made start_ends admit create close_round new_client
early_refused = early-admit by_ctx none (some canceled) (run 1 new_client history) (inl refl)
