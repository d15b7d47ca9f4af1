-- ===== src/Batch/Progress.antt =====
-- A Write whose pieces are drained finishes, and a closed buffer is drained to its end.
use cronet_go.Base.{
  ℕ, zero, suc, ◌-◌, ◌≡◌, ◌≤◌, ◌<◌, refl, sym, ap, ◌∙◌, List, [], ◌∷◌, ◌++◌, Option, none, some,
  true, false, arith, tests, min, ltb, if◌then◌else◌, length, take, drop, concat, Error, eof,
  Bool-cases, inl, inr, append-nil, length-append, length-take, take_all, drop_all, ltb→lt,
  length-eq-zero,
}
use cronet_go.Batch.{
  Batch, returns, ends, new_batch, accept_open, accept, write_round, drain_round, Event, writes,
  drains, System, step, run, start,
}
use cronet_go.Batch.Invariant.{step-Inv, run-start-Inv}

-- A round of the Write and a drain, `n` times.
abbrev pub rounds : ℕ → List Event
rounds zero = []
rounds (suc n) = writes none ∷ drains ∷ rounds n

-- Between the pairs of rounds the buffer is empty and open.
record Quiet (p : List ℕ) (s : System) : Type 0 where
  is_open : s.batch.closed ≡ false
  empty : s.batch.buffered ≡ []
  roomy : 0 < s.batch.limit
  accepted : s.total ≤ length p

-- A drain empties a buffer within its limit.
drain_all :
    (b : Batch)
    → length b.buffered ≤ b.limit
    → ((drain_round b).batch.buffered ≡ [])
      × ((drain_round b).batch.closed ≡ b.closed)
      × ((drain_round b).batch.limit ≡ b.limit)
unfolding drain_round
drain_all b h =
    let n = if ltb b.limit (length b.buffered) then b.limit else length b.buffered in
    ground (arith, drop_all n b.buffered, length-eq-zero b.buffered)

pair : List ℕ → System → System
pair p s = step p (step p s (writes none)) drains

pair-Quiet :
    (p : List ℕ) (s : System)
    → Quiet p s
    → s.returned ≡ none
    → s.total < length p
    → Quiet p (pair p s) × ((pair p s).returned ≡ none) × (s.total < (pair p s).total)
unfolding pair step write_round accept accept_open
pair-Quiet p s q running more =
    let b = s.batch in
    let n = min (b.limit - length b.buffered) (length p - s.total) in
    let c = take n (drop s.total p) in
    let after = (step p s (writes none)).batch in
    ground (arith, drain_all after, length-append b.buffered c, length-take n (drop s.total p))

pair_done :
    (p : List ℕ) (s : System)
    → Quiet p s
    → s.returned ≡ none
    → s.total ≡ length p
    → Quiet p (pair p s) × ((pair p s).returned ≡ some none) × ((pair p s).total ≡ length p)
unfolding pair step write_round drain_round
pair_done p s q running all = ground arith

-- A Write that has returned leaves the buffer to the drains.
pair_idle :
    (p : List ℕ) (s : System) (e : Option Error)
    → Quiet p s
    → s.returned ≡ some e
    → Quiet p (pair p s) × ((pair p s).returned ≡ some e) × ((pair p s).total ≡ s.total)
unfolding pair step drain_round
pair_idle p s e q done = ground arith

idle_rounds :
    (p : List ℕ) (s : System) (e : Option Error) (n : ℕ)
    → Quiet p s
    → s.returned ≡ some e
    → let t = run p s (rounds n) in
      (t.returned ≡ some e) × (t.total ≡ s.total) × (t.batch.buffered ≡ [])
unfolding run pair
idle_rounds p s e zero q done = (done, refl, q.empty)
idle_rounds p s e (suc n) q done =
    let (q', done', same) = pair_idle p s e q done in
    let (a, b, c) = idle_rounds p (pair p s) e n q' done' in (a, b ∙ same, c)

busy_rounds :
    (p : List ℕ) (s : System) (n : ℕ)
    → Quiet p s
    → s.returned ≡ none
    → length p - s.total < n
    → let t = run p s (rounds n) in
      (t.returned ≡ some none) × (t.total ≡ length p) × (t.batch.buffered ≡ [])
unfolding run pair
busy_rounds p s zero q running h = absurd (omega arith)
busy_rounds p s (suc n) q running h = elim (Bool-cases (ltb s.total (length p))) [
  | inl more ↦
      let (q', running', grows) = pair-Quiet p s q running (ltb→lt _ _ more) in
      busy_rounds p (pair p s) n q' running' (omega (tests, more, grows))
  | inr all ↦
      let total : s.total ≡ length p = omega (tests, all, q.accepted) in
      let (q', done, same) = pair_done p s q running total in
      let (a, b, c) = idle_rounds p (pair p s) none n q' done in (a, b ∙ same, c)
]

-- A Write of any slice into a fresh buffer returns without an error once its rounds have alternated
-- with more drains than the slice has bytes, and what the drains handed out is the slice.
pub rounds_complete :
    (limit : ℕ) (p : List ℕ) (n : ℕ)
    → 0 < limit
    → length p < n
    → let t = run p (start limit) (rounds n) in
      (t.returned ≡ some none) × (t.total ≡ length p) × (concat t.drained ≡ p)
unfolding new_batch
rounds_complete limit p n pos h =
    let quiet : Quiet p (start limit) = record {
      is_open = refl;
      empty = refl;
      roomy = ground arith;
      accepted = omega arith;
    } in
    let (returned, total, empty) = busy_rounds p (start limit) n quiet refl (omega arith) in
    let t = run p (start limit) (rounds n) in
    let v = run-start-Inv limit p (rounds n) pos in
    (
      returned,
      total,
      sym (append-nil (concat t.drained))
          ∙ ap (◌++◌ (concat t.drained)) (sym empty)
          ∙ sym v.conserved
          ∙ ap (λ i. take i p) total
          ∙ take_all (length p) p (omega arith),
    )

drain_round_end :
    (b : Batch) → b.closed ≡ true → b.buffered ≡ [] → (drain_round b).outcome ≡ returns (ends eof)
unfolding drain_round
drain_round_end b shut empty = ground arith

-- After any history in which the buffer was closed, one more drain takes all that is left; the next
-- reports io.EOF, and by then the drains have handed out every byte that the Write counted.
pub closed-drains :
    (limit : ℕ) (p : List ℕ) (es : List Event)
    → 0 < limit
    → (run p (start limit) es).batch.closed ≡ true
    → let t = step p (run p (start limit) es) drains in
      ((drain_round t.batch).outcome ≡ returns (ends eof)) × (concat t.drained ≡ take t.total p)
unfolding step
closed-drains limit p es pos shut =
    let s = run p (start limit) es in
    let v = run-start-Inv limit p es pos in
    let t = step p s drains in
    let w = step-Inv limit p s drains pos v in
    let (empty, still, _) = drain_all s.batch (omega (arith, v.bounded, v.limited)) in
    (
      drain_round_end (drain_round s.batch).batch (still ∙ shut) empty,
      sym (append-nil (concat t.drained))
          ∙ ap (◌++◌ (concat t.drained)) (sym empty)
          ∙ sym w.conserved,
    )
