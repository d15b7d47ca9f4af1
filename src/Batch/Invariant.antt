-- ===== src/Batch/Invariant.antt =====
-- No byte is lost, repeated or reordered between a Write and the drains, in any interleaving.
use cronet_go.Base.{
  ℕ, suc, ◌+◌, ◌-◌, ◌≡◌, ◌≤◌, ◌<◌, refl, sym, ap, ◌∙◌, List, [], ◌∷◌, ◌++◌, Option, none, some,
  arith, tests, min, ltb, if◌then◌else◌, length, take, drop, All, concat, Error, Bool-cases, ltb→lt,
  zero, inl, inr, append_assoc, append-nil, length-append, length-take, length-drop,
  take-append-drop, take_all,
}
use Prim.Native.Nat.add
use cronet_go.Batch.{
  new_batch, accept_open, accept, write_round, drain_round, close_with_error, Event, writes, drains,
  closes, System, step, run, start, after_write, after_drain,
}

-- What a drain hands out: a piece that is not empty and not longer than the limit.
abbrev pub IsPiece : ℕ → List ℕ → Type 0
IsPiece limit c = (0 < length c) × (length c ≤ limit)

pub record Inv (limit : ℕ) (p : List ℕ) (s : System) : Type 0 where
  pub limited : s.batch.limit ≡ limit
  pub bounded : length s.batch.buffered ≤ limit
  pub accepted : s.total ≤ length p
  pub conserved : take s.total p ≡ concat s.drained ++ s.batch.buffered
  pub pieces : All (IsPiece limit) s.drained

take-add : (n m : ℕ) (p : List ℕ) → take (n + m) p ≡ take n p ++ take m (drop n p)
take-add zero m p = ap (λ k. take k p) (omega arith)
take-add (suc n) m [] = ap (λ k. take k []) (add.suc n m) ∙ sym (take_all m [] (omega arith))
take-add (suc n) m (x ∷ p) = ap (λ k. take k (x ∷ p)) (add.suc n m) ∙ ap (◌∷◌ x) (take-add n m p)

concat-append_one : (cs : List (List ℕ)) (c : List ℕ) → concat (cs ++ (c ∷ [])) ≡ concat cs ++ c
concat-append_one [] c = append-nil c
concat-append_one (d ∷ cs) c = ap (◌++◌ d) (concat-append_one cs c) ∙ sym (append_assoc d _ c)

All-append_one :
    (limit : ℕ) (cs : List (List ℕ)) (c : List ℕ)
    → All (IsPiece limit) cs
    → IsPiece limit c
    → All (IsPiece limit) (cs ++ (c ∷ []))
All-append_one limit [] c h k = (k, tt)
All-append_one limit (d ∷ cs) c h k = (h.0, All-append_one limit cs c h.1 k)

accept_open-Inv :
    (limit : ℕ) (p : List ℕ) (s : System)
    → s.total < length p
    → Inv limit p s
    → Inv limit p (after_write s (accept_open s.batch p s.total))
unfolding accept_open
accept_open-Inv limit p s more v =
    let b = s.batch in
    let n = min (b.limit - length b.buffered) (length p - s.total) in
    let c = take n (drop s.total p) in
    elim (Bool-cases (ltb (length b.buffered) b.limit)) [
      | inl room ↦
          rw (room, accept_open)
            (record {
              limited = v.limited;
              bounded = omega (
                tests,
                room,
                v.limited,
                length-append b.buffered c,
                length-take n (drop s.total p),
              );
              accepted = omega arith;
              conserved =
                  take-add s.total n p
                  ∙ ap (λ (t : List ℕ). t ++ c) v.conserved
                  ∙ append_assoc (concat s.drained) b.buffered c;
              pieces = v.pieces;
            })
      | inr full ↦
          rw (full, accept_open)
            (record {
              limited = v.limited;
              bounded = v.bounded;
              accepted = v.accepted;
              conserved = v.conserved;
              pieces = v.pieces;
            })
    ]

-- What a round that leaves the buffer and the total alone keeps.
Inv-same :
    {limit : ℕ} {p : List ℕ} {s : System} (e : Option (Option Error))
    → Inv limit p s
    → Inv limit p (record s { returned = e })
Inv-same e v = record {
  limited = v.limited;
  bounded = v.bounded;
  accepted = v.accepted;
  conserved = v.conserved;
  pieces = v.pieces;
}

write_round-Inv :
    (limit : ℕ) (p : List ℕ) (s : System) (ctx : Option Error)
    → Inv limit p s
    → Inv limit p (after_write s (write_round ctx s.batch p s.total))
unfolding write_round accept
write_round-Inv limit p s ctx v = elim (Bool-cases (ltb s.total (length p))) [
  | inr done ↦ rw (done, write_round) (Inv-same _ v)
  | inl more ↦ rw (more, write_round) (go ctx (ltb→lt _ _ more))
]
  where
    go :
        (c : Option Error)
        → s.total < length p
        → Inv limit p (after_write s (accept c s.batch p s.total))
    go (some e) h = Inv-same _ v
    go none h = ground (arith, accept_open-Inv limit p s h v)

drain_round-Inv :
    (limit : ℕ) (p : List ℕ) (s : System)
    → 0 < limit
    → Inv limit p s
    → Inv limit p (after_drain s (drain_round s.batch))
unfolding drain_round
drain_round-Inv limit p s pos v =
    let b = s.batch in
    let n = if ltb b.limit (length b.buffered) then b.limit else length b.buffered in
    elim (Bool-cases (ltb 0 (length b.buffered))) [
      | inl some_data ↦
          rw (some_data, drain_round)
            (record {
              limited = v.limited;
              bounded = omega (arith, v.bounded, length-drop n b.buffered);
              accepted = v.accepted;
              conserved =
                  v.conserved
                  ∙ ap (◌++◌ (concat s.drained)) (sym (take-append-drop n b.buffered))
                  ∙ sym (append_assoc (concat s.drained) (take n b.buffered) (drop n b.buffered))
                  ∙ ap (λ (t : List ℕ). t ++ drop n b.buffered)
                      (sym (concat-append_one s.drained (take n b.buffered)));
              pieces = All-append_one limit s.drained (take n b.buffered) v.pieces (
                ground (arith, length-take n b.buffered, v.bounded, v.limited),
                ground (arith, length-take n b.buffered, v.bounded),
              );
            })
      | inr empty ↦ rw (empty, drain_round) (ground arith)
    ]

close-Inv :
    (limit : ℕ) (p : List ℕ) (s : System) (e : Option Error)
    → Inv limit p s
    → Inv limit p (record s { batch = close_with_error e s.batch })
unfolding close_with_error
close-Inv limit p s e v = ground arith

pub step-Inv :
    (limit : ℕ) (p : List ℕ) (s : System) (e : Event)
    → 0 < limit
    → Inv limit p s
    → Inv limit p (step p s e)
unfolding step
step-Inv limit p s (writes ctx) pos v = ground (arith, write_round-Inv limit p s ctx v)
step-Inv limit p s drains pos v = drain_round-Inv limit p s pos v
step-Inv limit p s (closes e) pos v = close-Inv limit p s e v

run-Inv :
    (limit : ℕ) (p : List ℕ) (s : System) (es : List Event)
    → 0 < limit
    → Inv limit p s
    → Inv limit p (run p s es)
unfolding run
run-Inv limit p s [] pos v = v
run-Inv limit p s (e ∷ es) pos v = run-Inv limit p (step p s e) es pos (step-Inv limit p s e pos v)

-- In every interleaving of the rounds of one Write with drains and closes: what is buffered stays
-- within the limit, what Write counted as accepted is the front of its slice, and that front is what
-- the drains handed out, in order, followed by what is buffered. No drain hands out an empty piece or
-- one longer than the limit.
pub run-start-Inv :
    (limit : ℕ) (p : List ℕ) (es : List Event) → 0 < limit → Inv limit p (run p (start limit) es)
unfolding new_batch
run-start-Inv limit p es pos = run-Inv limit p (start limit) es pos (record {
  limited = ground arith;
  bounded = omega arith;
  accepted = omega arith;
  conserved = refl;
  pieces = tt;
})
