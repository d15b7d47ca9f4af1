-- ===== src/NetError/Lookup.antt =====
-- The search in the sorted table finds each entry by its code.
use cronet_go.Base.{
  ℕ, zero, suc, ◌+◌, ◌-◌, ◌/◌, ◌≤◌, ◌<◌, ◌≡◌, ◌≢◌, refl, sym, ap, subst, ◌∙◌, ◌⊎◌, inl, inr, List,
  [], ◌∷◌, Option, some, Bool, true, false, arith, ltb, length, get_elem?, ℤ, le_int, ◌≤ℤ◌,
  Bool-cases, ltb→lt, ltb→ge,
}
use cronet_go.NetError.{
  Entry, search, at_least, with_code, lookup_net_error, error_message, error_name,
  error_description,
}

-- What a search from `i` to `j` of `n` leaves: below its result the test fails, at its result it holds.
record Found (f : ℕ → Bool) (n r : ℕ) : Type 0 where
  below : (r ≡ 0) ⊎ (f (r - 1) ≡ false)
  here : (r ≡ n) ⊎ (f r ≡ true)
  bounded : r ≤ n

search-yes :
    (f : ℕ → Bool) (k i j : ℕ)
    → i < j
    → f ((i + j) / 2) ≡ true
    → search f (suc k) i j ≡ search f k i ((i + j) / 2)
unfolding search
search-yes f k i j lt h = ground (arith, h)

search-no :
    (f : ℕ → Bool) (k i j : ℕ)
    → i < j
    → f ((i + j) / 2) ≡ false
    → search f (suc k) i j ≡ search f k ((i + j) / 2 + 1) j
unfolding search
search-no f k i j lt h = ground (arith, h)

search-stop : (f : ℕ → Bool) (k i j : ℕ) → j ≤ i → search f k i j ≡ i
unfolding search
search-stop f zero i j le = refl
search-stop f (suc k) i j le = ground arith

stopped :
    (f : ℕ → Bool) (n i j : ℕ)
    → i ≡ j
    → j ≤ n
    → (i ≡ 0) ⊎ (f (i - 1) ≡ false)
    → (j ≡ n) ⊎ (f j ≡ true)
    → Found f n i
stopped f n i j e top low high = record {
  below = low;
  here = subst (λ (t : ℕ). (t ≡ n) ⊎ (f t ≡ true)) (sym e) high;
  bounded = omega arith;
}

search-Found :
    (f : ℕ → Bool) (n k i j : ℕ)
    → j ≤ i + k
    → i ≤ j
    → j ≤ n
    → (i ≡ 0) ⊎ (f (i - 1) ≡ false)
    → (j ≡ n) ⊎ (f j ≡ true)
    → Found f n (search f k i j)
search-Found f n zero i j fuel le top low high =
    subst (Found f n) (sym (search-stop f 0 i j (omega arith)))
      (stopped f n i j (omega arith) top low high)
search-Found f n (suc k) i j fuel le top low high = elim (Bool-cases (ltb i j)) [
  | inr over ↦
      subst (Found f n) (sym (search-stop f (suc k) i j (ltb→ge i j over)))
        (stopped f n i j (omega (arith, ltb→ge i j over)) top low high)
  | inl more ↦
      let lt : i < j = ltb→lt i j more in
      elim (Bool-cases (f ((i + j) / 2))) [
        | inl yes_ ↦ subst (Found f n) (sym (search-yes f k i j lt yes_)) (
            search-Found f n k i ((i + j) / 2) (omega arith) (omega arith) (omega arith) low
              (inr yes_))
        | inr no_ ↦ subst (Found f n) (sym (search-no f k i j lt no_)) (
            search-Found f n k ((i + j) / 2 + 1) j (omega arith) (omega arith) top
              (inr (ap f (omega arith) ∙ no_)) high)
      ]
]

-- Codes that rise along a table.
pub record Sorted (table : List Entry) : Type 0 where
  pub rises :
      (i j : ℕ) (x y : Entry)
      → i < j
      → get_elem? table i ≡ some x
      → get_elem? table j ≡ some y
      → ¬ (y.code ≤ℤ x.code)

get_elem?-some :
    (table : List Entry) (i : ℕ) → i < length table → (x : Entry) × (get_elem? table i ≡ some x)
get_elem?-some [] i h = absurd (omega arith)
get_elem?-some (y ∷ ys) zero h = (y, refl)
get_elem?-some (y ∷ ys) (suc i) h = get_elem?-some ys i (omega arith)

get_elem?-bound :
    (table : List Entry) (i : ℕ) (x : Entry) → get_elem? table i ≡ some x → i < length table
get_elem?-bound [] i x h = cc h
get_elem?-bound (y ∷ ys) zero x h = omega arith
get_elem?-bound (y ∷ ys) (suc i) x h = omega (arith, get_elem?-bound ys i x h)

at_least-some : (e : ℤ) (o : Option Entry) (x : Entry) → o ≡ some x → at_least e o ≡ le_int e x.code
unfolding at_least
at_least-some e o x h = ap (at_least e) h

le_int_refl : (a : ℤ) → le_int a a ≡ true
le_int_refl a = ground arith

le_int-le : (a b : ℤ) → le_int a b ≡ true → a ≤ℤ b
le_int-le a b h = ground arith

le_int-gt : (a b : ℤ) → le_int a b ≡ false → b ≤ℤ a
le_int-gt a b h = ground arith

own_code_fails : (x z : Entry) → x ≡ z → le_int x.code z.code ≢ false
own_code_fails x z e h =
    let same : le_int x.code x.code ≡ le_int x.code z.code =
      ap (λ (t : Entry). le_int x.code t.code) e in
    cc (sym (le_int_refl x.code) ∙ same ∙ h)

own_code : (x : Entry) → with_code x.code (some x) ≡ some x
unfolding with_code
own_code x = let h = le_int_refl x.code in rw h

module _ (table : List Entry) (sorted : Sorted table) (i : ℕ) (x : Entry)
    (e : get_elem? table i ≡ some x) where
  test : ℕ → Bool
  test k = at_least x.code (get_elem? table k)

  -- The search ends neither before the entry nor behind it.
  not_before : (r : ℕ) → Found test (length table) r → ¬ (r < i)
  unfolding at_least test
  not_before r f lt =
      let bound = get_elem?-bound table i x e in
      let (y, at) = get_elem?-some table r (omega (arith, bound)) in
      elim f.here [
        | inl end_ ↦ omega (arith, bound, end_)
        | inr holds ↦
            sorted.rises r i y x lt at e (
              le_int-le x.code y.code (sym (at_least-some x.code (get_elem? table r) y at) ∙ holds))
      ]

  not_behind : (r : ℕ) → Found test (length table) r → ¬ (i < r)
  unfolding at_least test
  not_behind r f lt =
      let bounded = f.bounded in
      let (z, at) = get_elem?-some table (r - 1) (omega (arith, bounded)) in
      elim f.below [
        | inl start_ ↦ omega (arith, start_)
        | inr fails ↦
            let over : le_int x.code z.code ≡ false =
              sym (at_least-some x.code (get_elem? table (r - 1)) z at) ∙ fails in
            elim (Bool-cases (ltb i (r - 1))) [
              | inl after ↦
                  sorted.rises i (r - 1) x z (ltb→lt i (r - 1) after) e at
                    (le_int-gt x.code z.code over)
              | inr here ↦
                  let same : get_elem? table i ≡ some z =
                    ap (get_elem? table) (omega (arith, ltb→ge i (r - 1) here)) ∙ at in
                  own_code_fails x z (cc (sym e ∙ same)) over
            ]
      ]

  found_at : (r : ℕ) → Found test (length table) r → r ≡ i
  found_at r f = let a = not_before r f in let b = not_behind r f in omega arith

lookup_net_error-finds :
    (table : List Entry)
    → Sorted table
    → (i : ℕ) → (x : Entry) → get_elem? table i ≡ some x
    → lookup_net_error table x.code ≡ some x
unfolding lookup_net_error test
lookup_net_error-finds table sorted i x e =
    let r = search (test table sorted i x e) (length table) 0 (length table) in
    let at : r ≡ i = found_at table sorted i x e r (
      search-Found _ (length table) (length table) 0 (length table) (omega arith) (omega arith)
        (omega arith) (inl refl) (inl refl)) in
    ap (with_code x.code) (ap (get_elem? table) at ∙ e) ∙ own_code x

-- In a table whose codes rise, the code of each entry is found, and has that entry's message, name and
-- description.
pub lookup_net_error-describes :
    (table : List Entry)
    → Sorted table
    → (i : ℕ) → (x : Entry) → get_elem? table i ≡ some x
    → (lookup_net_error table x.code ≡ some x)
      × (error_message table x.code ≡ x.message)
      × (error_name table x.code ≡ x.name)
      × (error_description table x.code ≡ x.description)
unfolding error_message error_name error_description
lookup_net_error-describes table sorted i x e =
    let h = lookup_net_error-finds table sorted i x e in
    (h, rw (error_message, h), rw (error_name, h), rw (error_description, h))
