-- ===== src/Codec/Identifiers/Alphabets.antt =====
-- The characters that each table of a session's identifiers stands for, told without the tables.
use cronet_go.Base.{
  ℕ, suc, zero, ◌≡◌, ◌<◌, refl, ap, ◌∙◌, List, [], ◌∷◌, Bool, true, false, ◌&&◌, ◌||◌, arith,
  if◌then◌else◌, leb, ◌==◌, length, get_elem?, Text, codes, text_eq, Bool-cases, inl, inr,
}
use cronet_go.Codec.Padding.{byte_or}
use cronet_go.Codec.Identifiers.{predefined_tables, table_named, session_alphabet}
use cronet_go.Codec.{Codec}

abbrev pub between : ℕ → ℕ → ℕ → Bool
between a b c = leb a c && leb c b

abbrev pub numeral : ℕ → Bool
numeral c = between b'0' b'9' c

abbrev pub capital : ℕ → Bool
capital c = between b'A' b'Z' c

abbrev pub small : ℕ → Bool
small c = between b'a' b'z' c

-- Bytes of a text.
unfoldable pub member : Text → ℕ → Bool
member [] c = false
member (x ∷ xs) c = (x == c) || member xs c

abbrev classes : List (Text × (ℕ → Bool))
classes =
    (codes "ALPHABET", λ c. capital c)
    ∷ (codes "Alphabet", λ c. capital c || small c)
    ∷ (codes "BASE36", λ c. numeral c || capital c)
    ∷ (codes "Base62", λ c. numeral c || (capital c || small c))
    ∷ (codes "HEX", λ c. numeral c || between b'A' b'F' c)
    ∷ (codes "alphabet", λ c. small c)
    ∷ (codes "base36", λ c. numeral c || small c)
    ∷ (codes "hex", λ c. numeral c || between b'a' b'f' c)
    ∷ (codes "number", λ c. numeral c)
    ∷ []

class_named : Text → List (Text × (ℕ → Bool)) → ℕ → Bool
class_named name [] = member name
class_named name ((k, f) ∷ rest) = if text_eq k name then f else class_named name rest

-- Whether the options' table, by its name or by itself, has a character.
unfoldable pub stands_for : Text → ℕ → Bool
unfolding class_named
stands_for name = class_named name classes

unfoldable pub every : (ℕ → Bool) → Text → Bool
every f [] = true
every f (c ∷ cs) = f c && every f cs

pub every-get_elem? :
    (f : ℕ → Bool) (xs : Text) (i : ℕ)
    → every f xs ≡ true
    → i < length xs
    → f (byte_or 0 (get_elem? xs i)) ≡ true
unfolding every
every-get_elem? f [] i e h = absurd (omega arith)
every-get_elem? f (x ∷ xs) zero e h = ground (arith, e)
every-get_elem? f (x ∷ xs) (suc i) e h = every-get_elem? f xs i (ground (arith, e)) (omega arith)

every_weaker :
    (f g : ℕ → Bool) (xs : Text)
    → ((c : ℕ) → f c ≡ true → g c ≡ true)
    → every f xs ≡ true
    → every g xs ≡ true
unfolding every
every_weaker f g [] w e = refl
every_weaker f g (x ∷ xs) w e = ground (arith, e, w x, every_weaker f g xs w (ground (arith, e)))

every-member : (xs : Text) → every (member xs) xs ≡ true
unfolding every member
every-member [] = refl
every-member (x ∷ xs) =
    let rest : every (member (x ∷ xs)) xs ≡ true =
      every_weaker (member xs) (member (x ∷ xs)) xs (λ c h. ground (arith, h)) (every-member xs) in
    ground (arith, rest)

-- The same names, and each table has only characters of its class.
abbrev Fitting : List (Text × Text) → List (Text × (ℕ → Bool)) → Type 0
Fitting [] [] = Unit {0}
Fitting ((k, t) ∷ ts) ((l, f) ∷ fs) = (k ≡ l) × (every f t ≡ true) × (0 < length t) × Fitting ts fs
Fitting ts fs = ⊥

table_named-class_named :
    (name : Text) (ts : List (Text × Text)) (fs : List (Text × (ℕ → Bool)))
    → Fitting ts fs
    → 0 < length name
    → (every (class_named name fs) (table_named name ts) ≡ true)
      × (0 < length (table_named name ts))
unfolding class_named table_named
table_named-class_named name [] [] h p = (every-member name, p)
table_named-class_named name [] (f ∷ fs) h p = absurd h
table_named-class_named name (t ∷ ts) [] h p = absurd h
table_named-class_named name ((k, t) ∷ ts) ((l, f) ∷ fs) (e, a, q, h) p =
    elim (Bool-cases (text_eq l name)) [
      | inl found ↦
          let found' : text_eq k name ≡ true = ap (λ (x : Text). text_eq x name) e ∙ found in
          rw (found, found') (a, q)
      | inr other ↦
          let other' : text_eq k name ≡ false = ap (λ (x : Text). text_eq x name) e ∙ other in
          rw (other, other') (table_named-class_named name ts fs h p)
    ]

pub session_alphabet-stands_for :
    (c : Codec)
    → 0 < length c.session_table
    → (every (stands_for c.session_table) (session_alphabet c) ≡ true)
      × (0 < length (session_alphabet c))
unfolding session_alphabet stands_for every
session_alphabet-stands_for c p =
    table_named-class_named c.session_table predefined_tables classes
      (
        refl,
        refl,
        omega arith,
        (
          refl,
          refl,
          omega arith,
          (
            refl,
            refl,
            omega arith,
            (
              refl,
              refl,
              omega arith,
              (
                refl,
                refl,
                omega arith,
                (
                  refl,
                  refl,
                  omega arith,
                  (
                    refl,
                    refl,
                    omega arith,
                    (refl, refl, omega arith, (refl, refl, omega arith, tt)),
                  ),
                ),
              ),
            ),
          ),
        ),
      )
      p
