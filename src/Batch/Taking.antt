-- ===== src/Batch/Taking.antt =====
-- What one round takes out of the upload buffer or puts into it.
use cronet_go.Base.{
  ℕ, ◌+◌, ◌-◌, ◌≤◌, ◌≡◌, sym, ap, ◌∙◌, List, [], ◌∷◌, ◌++◌, Option, none, arith, min, length, take,
  drop, concat, Error, append-nil, append_assoc, take-append-drop,
}
use cronet_go.Batch.{
  Batch, Round, returns, Drained, bytes, drain_round, write_round, accept, accept_open,
  close_with_error,
}

-- What a round of drain takes from a buffer.
unfoldable pub Takes : Batch → Batch → Round Drained → Type 0
Takes b b' (returns (bytes c)) = b.buffered ≡ c ++ b'.buffered
Takes b b' outcome = b'.buffered ≡ b.buffered

pub drain_round-Takes : (b : Batch) → Takes b (drain_round b).batch (drain_round b).outcome
unfolding drain_round Takes
drain_round-Takes b =
    ground
      (arith, take-append-drop b.limit b.buffered, take-append-drop (length b.buffered) b.buffered)

take_none : (t : ℕ) (xs ys : List ℕ) → xs ++ take (t - t) ys ≡ xs
take_none t xs ys = let e : t - t ≡ 0 = omega arith in ap (λ k. xs ++ take k ys) e ∙ append-nil xs

pub write_round-buffered :
    (ctx : Option Error) (b : Batch) (p : List ℕ) (total : ℕ)
    → let r = write_round ctx b p total in
      r.batch.buffered ≡ b.buffered ++ take (r.total - total) (drop total p)
unfolding write_round accept accept_open
write_round-buffered ctx b p total =
    let n : ℕ = min (b.limit - length b.buffered) (length p - total) in
    let e : total + n - total ≡ n = omega arith in
    ground (
      arith,
      take_none total b.buffered (drop total p),
      ap (λ k. b.buffered ++ take k (drop total p)) e,
    )

pub close_with_error-buffered :
    (e : Option Error) (b : Batch) → (close_with_error e b).buffered ≡ b.buffered
unfolding close_with_error
close_with_error-buffered e b = ground arith

pub concat-append_one : (cs : List (List ℕ)) (c : List ℕ) → concat (cs ++ (c ∷ [])) ≡ concat cs ++ c
concat-append_one [] c = append-nil c
concat-append_one (d ∷ cs) c =
    ap (◌++◌ d) (concat-append_one cs c) ∙ sym (append_assoc d (concat cs) c)

pub write_round-total :
    (ctx : Option Error) (b : Batch) (p : List ℕ) (total : ℕ)
    → total ≤ length p
    → let r = write_round ctx b p total in
      (r.total ≤ length p) × (total ≤ r.total) × (r.outcome ≡ returns none → r.total ≡ length p)
unfolding write_round accept accept_open
write_round-total ctx b p total h = ground arith
