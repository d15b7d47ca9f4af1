-- ===== src/Batch/Reader.antt =====
-- browser_xhttp.go, browserBatchReader: reads of any size over the pieces that drain hands out.
use cronet_go.Base.{
  ℕ, suc, ◌≡◌, ◌≤◌, refl, sym, ap, subst, ◌∙◌, List, [], ◌∷◌, ◌++◌, Option, none, some, arith, ltb,
  if◌then◌else◌, length, take, drop, Error, closed_pipe, Bool-cases, inl, inr, append_assoc,
  take-append-drop, length-take, length-eq-zero,
}
use cronet_go.Batch.{
  Batch, Round, returns, again, waits, Drained, bytes, ends, drain_round, close_with_error,
}

pub record BatchReader : Type 0 where
  pub batch : Batch
  pub pending : List ℕ

pub record ReadRound : Type 0 where
  pub reader : BatchReader
  pub outcome : Round (List ℕ × Option Error)

-- `n := copy(p, r.pending)` for a slice of n bytes.
abbrev copy_pending : ℕ → BatchReader → ReadRound
copy_pending n r = record {
  reader = record r { pending = drop n r.pending };
  outcome = returns (take n r.pending, none);
}

abbrev after_drained : ℕ → Batch → Round Drained → ReadRound
after_drained n b (returns (bytes c)) = copy_pending n (record { batch = b; pending = c })
after_drained n b (returns (ends e)) = record {
  reader = record { batch = b; pending = [] };
  outcome = returns ([], some e);
}
after_drained n b again = record { reader = record { batch = b; pending = [] }; outcome = again }
after_drained n b (waits g) = record {
  reader = record { batch = b; pending = [] };
  outcome = waits g;
}

-- One round of Read into a slice of n bytes.
unfoldable pub read_round : ℕ → BatchReader → ReadRound
read_round n r = elim r.pending [
  | [] ↦ let d = drain_round r.batch in after_drained n d.batch d.outcome
  | x ∷ xs ↦ copy_pending n r
]

unfoldable pub close_reader : BatchReader → BatchReader
close_reader r = record r { batch = close_with_error (some closed_pipe) r.batch }

-- The bytes that a round hands out.
abbrev pub handed : Round (List ℕ × Option Error) → List ℕ
handed (returns (c, e)) = c
handed again = []
handed (waits g) = []

split_front : (n : ℕ) (xs ys : List ℕ) → xs ++ ys ≡ take n xs ++ (drop n xs ++ ys)
split_front n xs ys =
    ap (λ (t : List ℕ). t ++ ys) (sym (take-append-drop n xs))
    ∙ append_assoc (take n xs) (drop n xs) ys

-- What a round promises of the bytes `all` that it found.
record Conserves (n : ℕ) (all : List ℕ) (t : ReadRound) : Type 0 where
  order : all ≡ handed t.outcome ++ (t.reader.pending ++ t.reader.batch.buffered)
  size : length (handed t.outcome) ≤ n
  fails : (e : Error) → t.outcome ≡ returns ([], some e) → all ≡ []

copy_pending-Conserves :
    (n : ℕ) (r : BatchReader) → Conserves n (r.pending ++ r.batch.buffered) (copy_pending n r)
copy_pending-Conserves n r = record {
  order = split_front n r.pending r.batch.buffered;
  size = omega (arith, length-take n r.pending);
  fails = λ e h. cc h;
}

drained-Conserves :
    (n : ℕ) (b : Batch)
    → let d = drain_round b in Conserves n b.buffered (after_drained n d.batch d.outcome)
unfolding drain_round
drained-Conserves n b =
    let k = if ltb b.limit (length b.buffered) then b.limit else length b.buffered in
    let r : BatchReader = record {
      batch = record b { notify = suc b.notify; buffered = drop k b.buffered };
      pending = take k b.buffered;
    } in
    elim (Bool-cases (ltb 0 (length b.buffered))) [
      | inl more ↦
          rw (more, drain_round)
            (subst (λ (all : List ℕ). Conserves n all (copy_pending n r))
              (take-append-drop k b.buffered) (copy_pending-Conserves n r))
      | inr nothing ↦
          rw (nothing, drain_round)
            (record {
              order = ground arith;
              size = ground arith;
              fails = ground (arith, length-eq-zero b.buffered);
            })
    ]

read_round-Conserves :
    (n : ℕ) (r : BatchReader) (pending : List ℕ)
    → r.pending ≡ pending
    → Conserves n (pending ++ r.batch.buffered) (read_round n r)
unfolding read_round
read_round-Conserves n r [] e = rw (e, read_round) (drained-Conserves n r.batch)
read_round-Conserves n r (x ∷ xs) e =
    rw (e, read_round)
      (subst (λ (ps : List ℕ). Conserves n (ps ++ r.batch.buffered) (copy_pending n r)) e
        (copy_pending-Conserves n r))

-- A read hands out the front of what is pending and buffered, as much as its slice holds at most, and
-- leaves the rest in order; it fails only when nothing is left.
pub read_round-conserves :
    (n : ℕ) (r : BatchReader)
    → let t = read_round n r in
      (r.pending ++ r.batch.buffered
        ≡ handed t.outcome ++ (t.reader.pending ++ t.reader.batch.buffered))
      × (length (handed t.outcome) ≤ n)
      × ((e : Error) → t.outcome ≡ returns ([], some e) → r.pending ++ r.batch.buffered ≡ [])
read_round-conserves n r =
    let c = read_round-Conserves n r r.pending refl in (c.order, c.size, c.fails)
