-- ===== src/Grpc/Filling.antt =====
-- fill takes the bytes in order, and an error leaves what has come in its place.
use cronet_go.Base.{
  ℕ, ◌+◌, ◌-◌, ◌≡◌, ◌≤◌, ◌<◌, refl, sym, ap, ◌∙◌, List, [], ◌∷◌, ◌++◌, append_assoc,
  take-append-drop, length-append, length-take, Option, none, some, if◌then◌else◌, ◌==◌, ltb,
  length, take, drop, arith, Error, no_progress, length-eq-zero, ltb→ge, ltb→lt, Bool-cases, inl,
  inr,
}
use cronet_go.Grpc.{Reads, arriving, Filled, fill}

-- Every error of the reads is one of those that P allows.
pub record Fills (want : ℕ) (have : List ℕ) (rs : Reads) (f : Filled) : Type 0 where
  pub conserved : f.have ++ arriving f.rest ≡ have ++ arriving rs
  pub bounded : length f.have ≤ want
  pub grows : length have ≤ length f.have
  pub full : f.error ≡ none → length f.have ≡ want
  pub short : (e : Error) → f.error ≡ some e → length f.have < want

-- A read that has more than the slice takes.
part_Fills :
    (want : ℕ) (have bytes : List ℕ) (e : Option Error) (rs : Reads)
    → length have ≤ want
    → want - length have < length bytes
    → Fills want have ((bytes, e) ∷ rs) (record {
      have = have ++ take (want - length have) bytes;
      error = none;
      rest = (drop (want - length have) bytes, e) ∷ rs;
    })
part_Fills want have bytes e rs h more =
    let n = want - length have in
    let size : length (have ++ take n bytes) ≡ want =
      omega (arith, length-append have (take n bytes), length-take n bytes) in
    record {
      conserved =
          append_assoc have (take n bytes) (drop n bytes ++ arriving rs)
          ∙ ap (λ t. have ++ t)
              (sym (append_assoc (take n bytes) (drop n bytes) (arriving rs))
                ∙ ap (λ t. t ++ arriving rs) (take-append-drop n bytes));
      bounded = omega (arith, size);
      grows = omega (arith, size, h);
      full = λ x. size;
      short = λ x. ground arith;
    }

-- A read that the slice takes whole.
all_Fills :
    (want : ℕ) (have bytes : List ℕ) (e : Option Error) (rs : Reads) (f : Filled)
    → Fills want (have ++ bytes) rs f
    → Fills want have ((bytes, e) ∷ rs) f
all_Fills want have bytes e rs f v = record {
  conserved = v.conserved ∙ append_assoc have bytes (arriving rs);
  bounded = v.bounded;
  grows = omega (arith, v.grows, length-append have bytes);
  full = v.full;
  short = v.short;
}

nothing_Fills :
    (want : ℕ) (have : List ℕ) (e : Option Error) (rs : Reads) (f : Filled)
    → Fills want have rs f
    → Fills want have (([], e) ∷ rs) f
nothing_Fills want have e rs f v = record {
  conserved = v.conserved;
  bounded = v.bounded;
  grows = v.grows;
  full = v.full;
  short = v.short;
}

stops_Fills :
    (want : ℕ) (have : List ℕ) (e : Option Error) (rs : Reads)
    → length have ≤ want
    → (e ≡ none → length have ≡ want)
    → ((x : Error) → e ≡ some x → length have < want)
    → Fills want have rs (record { have = have; error = e; rest = rs })
stops_Fills want have e rs h f g = record {
  conserved = refl;
  bounded = h;
  grows = omega arith;
  full = f;
  short = g;
}

-- A read that leaves room, with an error, with nothing, or with a next read.
rest_Fills :
    (want : ℕ) (have bytes : List ℕ) (e : Option Error) (rs : Reads)
    → length have + length bytes < want
    → (length (have ++ bytes) ≤ want → Fills want (have ++ bytes) rs (fill want (have ++ bytes) rs))
    → Fills want have ((bytes, e) ∷ rs) (elim e [
      | some x ↦ record { have = have ++ bytes; error = some x; rest = rs }
      | none ↦
          if length bytes == 0
          then record { have = have; error = some no_progress; rest = rs }
          else fill want (have ++ bytes) rs
    ])
rest_Fills want have bytes (some x) rs h more =
    let size = length-append have bytes in
    all_Fills want have bytes (some x) rs _ (
      stops_Fills want (have ++ bytes) (some x) rs (omega (arith, size)) (ground arith)
        (λ y k. omega (arith, size)))
rest_Fills want have bytes none rs h more = elim (Bool-cases (length bytes == 0)) [
  | inl nothing ↦ rw nothing (
      rw (length-eq-zero bytes (ground arith)) (
        nothing_Fills want have none rs _ (
          stops_Fills want have (some no_progress) rs (omega arith) (ground arith)
            (λ y k. omega arith))))
  | inr something ↦
      rw something
        (all_Fills want have bytes none rs _ (more (omega (arith, length-append have bytes))))
]

pub fill-Fills :
    (want : ℕ) (have : List ℕ) (rs : Reads)
    → length have ≤ want
    → Fills want have rs (fill want have rs)
unfolding fill
fill-Fills want have [] h = record {
  conserved = refl;
  bounded = h;
  grows = omega arith;
  full = ground arith;
  short = λ e. ground arith;
}
fill-Fills want have ((bytes, e) ∷ rs) h = elim (Bool-cases (length have == want)) [
  | inl full ↦ rw full (record {
    conserved = refl;
    bounded = h;
    grows = omega arith;
    full = ground arith;
    short = λ e. ground arith;
  })
  | inr short ↦ rw short (elim (Bool-cases (ltb (want - length have) (length bytes))) [
    | inl some_left ↦ rw some_left (part_Fills want have bytes e rs h (ltb→lt _ _ some_left))
    | inr fits ↦
        let le : length bytes ≤ want - length have = ltb→ge _ _ fits in
        rw fits (elim (Bool-cases (length have + length bytes == want)) [
          | inl exact ↦ rw exact (
              all_Fills want have bytes e rs _ (
                stops_Fills want (have ++ bytes) none rs
                  (omega (arith, length-append have bytes, le))
                  (λ x. ground (arith, length-append have bytes)) (λ x. ground arith)))
          | inr less ↦ rw less (
              rest_Fills want have bytes e rs (ground arith)
                (λ k. fill-Fills want (have ++ bytes) rs k))
        ])
  ])
]

pub fill_full :
    (want : ℕ) (have : List ℕ) (rs : Reads)
    → length have ≡ want
    → fill want have rs ≡ record { have = have; error = none; rest = rs }
unfolding fill
fill_full want have [] h = ground arith
fill_full want have ((bytes, e) ∷ rs) h = ground arith
