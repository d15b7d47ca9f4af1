-- ===== src/Body/Examples.antt =====
-- The body of an upload in concrete histories.
use cronet_go.Base.{◌≡◌, ◌≤◌, ◌≢◌, List, [], ◌∷◌, none, some, true, arith, eof}
use cronet_go.Body.{idle, new_provider, allowed, read, Event, reads, rewinds, stops, step, run}
use cronet_go.Body.Limits.{run-read}
use cronet_go.Body.Closing.{Sound, run-closes}

-- A rewind that a stop overtakes.
abbrev history : List Event
history = reads 3 none ∷ rewinds true ∷ rewinds true ∷ stops ∷ rewinds true ∷ rewinds true ∷ []

abbrev reading : List Event
reading = reads 3 none ∷ []

run-closes_example :
    let p = run 8 (new_provider 5 true) history in
    Sound p × (p.closed ≡ true → p.rewind ≡ idle → p.opened ≡ p.closes)
run-closes_example = run-closes 8 5 true history

run-read_example :
    let p = run 8 (new_provider 5 true) reading in
    ((read 2 (some eof) p).1.read_len ≤ 5)
    × ((read 2 (some eof) p).0.0 ≤ 8)
    × ((read 2 (some eof) p).0.1 ≢ some eof)
unfolding run step read allowed new_provider
run-read_example = run-read 8 5 2 true reading (some eof) (omega arith) (omega arith)
