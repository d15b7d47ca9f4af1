-- ===== src/Base/Texts.antt =====
-- Text as the list of its bytes, where the code walks or cuts it, and decimal numbers.
use Prim.Native.Char.{code}
use Prim.Native.String.{String}
use Prim.Native.Nat.{ℕ, zero, suc, ◌+◌, ◌-◌, ◌*◌, ◌/◌, ◌%◌, ◌<◌}
use mathlib.Core.Path.{◌≡◌, refl, ap, sym, ◌∙◌}
use mathlib.Core.Logic.{◌≢◌}
use mathlib.Core.Bool.{Bool, true, false, ◌&&◌}
use mathlib.Core.Option.{Option, none, some}
use mathlib.Core.List.{List, [], ◌∷◌, ◌++◌, append-nil}
use native.Mathlib.Omega.{arith}
use cronet_go.Base.Tests.{◌==◌, if◌then◌else◌}

abbrev pub Text : Type 0
Text = List ℕ

abbrev pub codes : String → Text
codes String.[] = []
codes (String.◌∷◌ c s) = code c ∷ codes s

abbrev pub is_empty {ℓ} : {A : Type ℓ} → List A → Bool
is_empty [] = true
is_empty (x ∷ xs) = false

abbrev pub text_eq : Text → Text → Bool
text_eq [] [] = true
text_eq [] (y ∷ ys) = false
text_eq (x ∷ xs) [] = false
text_eq (x ∷ xs) (y ∷ ys) = (x == y) && text_eq xs ys

pub text_eq→eq : (xs ys : Text) → text_eq xs ys ≡ true → xs ≡ ys
text_eq→eq [] [] h = refl
text_eq→eq [] (y ∷ ys) h = cc
text_eq→eq (x ∷ xs) [] h = cc
text_eq→eq (x ∷ xs) (y ∷ ys) h = ground (arith, text_eq→eq xs ys)

pub text_eq_refl : (xs : Text) → text_eq xs xs ≡ true
text_eq_refl [] = refl
text_eq_refl (x ∷ xs) = ground (arith, text_eq_refl xs)

pub ne→text_eq : (xs ys : Text) → xs ≢ ys → text_eq xs ys ≡ false
ne→text_eq xs ys h = ground (arith, text_eq→eq xs ys)

-- strings.HasPrefix and HasSuffix with a text of one byte.
abbrev pub has_prefix : ℕ → Text → Bool
has_prefix c [] = false
has_prefix c (x ∷ xs) = x == c

abbrev pub has_suffix : ℕ → Text → Bool
has_suffix c [] = false
has_suffix c (x ∷ []) = x == c
has_suffix c (x ∷ y ∷ ys) = has_suffix c (y ∷ ys)

pub has_suffix-append_last : (c : ℕ) (xs : Text) → has_suffix c (xs ++ c ∷ []) ≡ true
has_suffix-append_last c [] = ground arith
has_suffix-append_last c (x ∷ []) = ground arith
has_suffix-append_last c (x ∷ y ∷ ys) = has_suffix-append_last c (y ∷ ys)

-- strings.IndexByte, with `none` for a negative result.
abbrev pub index_byte : Text → ℕ → Option ℕ
index_byte [] c = none
index_byte (x ∷ xs) c =
    if x == c then some 0 else elim (index_byte xs c) [ none ↦ none | some i ↦ some (suc i) ]

-- The digits of a number below ten to its fuel, least first, and its print.
abbrev pub digits : ℕ → ℕ → Text
digits zero n = []
digits (suc f) n = (b'0' + n % 10) ∷ elim (n / 10 == 0) [ true ↦ [] | false ↦ digits f (n / 10) ]

abbrev pub onto : Text → Text → Text
onto [] out = out
onto (c ∷ cs) out = onto cs (c ∷ out)

-- The %d of fmt.Sprintf.
unfoldable pub decimal : ℕ → Text
decimal n = onto (digits (suc n) n) []

value : Text → ℕ
value [] = 0
value (c ∷ cs) = c - b'0' + 10 * value cs

value-digits : (f n : ℕ) → n < f → value (digits f n) ≡ n
unfolding value
value-digits zero n h = absurd (omega arith)
value-digits (suc f) n h = ground (arith, value-digits f (n / 10))

onto-onto : (cs out xs : Text) → onto (onto cs out) xs ≡ onto out (cs ++ xs)
onto-onto [] out xs = refl
onto-onto (c ∷ cs) out xs = onto-onto cs (c ∷ out) xs

onto_twice : (cs : Text) → onto (onto cs []) [] ≡ cs
onto_twice cs = onto-onto cs [] [] ∙ append-nil cs

value-decimal : (n : ℕ) → value (onto (decimal n) []) ≡ n
unfolding decimal
value-decimal n = rw onto_twice (value-digits (suc n) n (omega arith))

pub decimal_inj : (m n : ℕ) → decimal m ≡ decimal n → m ≡ n
decimal_inj m n h = sym (value-decimal m) ∙ ap (λ (t : Text). value (onto t [])) h ∙ value-decimal n
