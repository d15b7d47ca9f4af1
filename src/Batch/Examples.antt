-- ===== src/Batch/Examples.antt =====
-- The bounded buffer on concrete histories.
use cronet_go.Base.{
  ℕ, ◌≡◌, ◌≤◌, refl, List, [], ◌∷◌, ◌++◌, none, some, arith, length, take, concat, Error, eof,
  canceled,
}
use cronet_go.Batch.{
  new_batch, returns, waits, ends, or_closed_pipe, write_round, accept, accept_open, drain_round,
  close_with_error, Event, writes, drains, closes, step, run, start,
}
use cronet_go.Batch.Invariant.{Inv, run-start-Inv}
use cronet_go.Batch.Wakeup.{waits-run, close-run}
use cronet_go.Batch.Progress.{rounds, rounds_complete, closed-drains}
use cronet_go.Batch.Reader.{BatchReader, read_round, handed, read_round-conserves}

abbrev slice : List ℕ
slice = 1 ∷ 2 ∷ 3 ∷ []

abbrev history : List Event
history = writes none ∷ drains ∷ writes none ∷ closes none ∷ writes none ∷ []

run-start-Inv_example : Inv 2 slice (run slice (start 2) history)
run-start-Inv_example = run-start-Inv 2 slice history (omega arith)

waits-run_example :
    ((write_round none (start 1).batch slice 0).outcome ≡ waits 0
      → (write_round none (run slice (start 1) (drains ∷ [])).batch slice 0).outcome ≡ waits 0)
    × ((drain_round (start 1).batch).outcome ≡ waits 0
        → (drain_round (run slice (start 1) (drains ∷ [])).batch).outcome ≡ waits 0)
unfolding run step drain_round new_batch
waits-run_example = waits-run slice (start 1) (drains ∷ []) slice 0 0 refl

close-run_example :
    let s' = run slice (step slice (start 2) (closes (some canceled))) history in
    (length s'.batch.buffered ≤ length (start 2).batch.buffered)
    × ((write_round none s'.batch slice 1).outcome
        ≡ returns (some (or_closed_pipe (some canceled))))
unfolding new_batch
close-run_example = close-run slice (start 2) (some canceled) history slice 1 refl (omega arith)

rounds_complete_example :
    let t = run slice (start 2) (rounds 4) in
    (t.returned ≡ some none) × (t.total ≡ 3) × (concat t.drained ≡ slice)
rounds_complete_example = rounds_complete 2 slice 4 (omega arith) (omega arith)

closed-drains_example :
    let t = step slice (run slice (start 2) history) drains in
    ((drain_round t.batch).outcome ≡ returns (ends eof)) × (concat t.drained ≡ take t.total slice)
unfolding run step drain_round write_round accept accept_open close_with_error new_batch
closed-drains_example = closed-drains 2 slice history (omega arith) refl

abbrev reader : BatchReader
reader = record { pending = 7 ∷ 8 ∷ 9 ∷ []; batch = new_batch 4 }

reads_front :
    let t = read_round 2 reader in
    (reader.pending ++ reader.batch.buffered
      ≡ handed t.outcome ++ (t.reader.pending ++ t.reader.batch.buffered))
    × (length (handed t.outcome) ≤ 2)
    × ((e : Error)
        → t.outcome ≡ returns ([], some e)
        → reader.pending ++ reader.batch.buffered ≡ [])
reads_front = read_round-conserves 2 reader
