-- ===== src/Codec/Headers.antt =====
-- An http.Header read after it was written.
use cronet_go.Base.{
  ℕ, ◌≡◌, ◌≢◌, refl, sym, ap, ◌∙◌, List, [], ◌∷◌, ◌++◌, Bool, true, ◌&&◌, arith, ◌==◌, ◌+◌,
  if◌then◌else◌, Text, decimal, decimal_inj, digits, onto, drop, zero, suc, ◌/◌, ◌%◌, ◌<◌, ltb,
  text_eq, text_eq→eq, text_eq_refl, ne→text_eq,
}
use cronet_go.Codec.{
  Header, lookup, insert, get, set, canonical, all_token, canonical_from, cased, is_token,
  is_alphanumeric, is_mark,
}

lookup-insert :
    (k j : Text) (vs : List Text) (h : Header)
    → lookup j (insert k vs h) ≡ (if text_eq k j then vs else lookup j h)
unfolding lookup insert
lookup-insert k j vs [] = refl
lookup-insert k j vs ((i, ws) ∷ h) =
    ground (
      arith,
      lookup-insert k j vs h,
      text_eq→eq i k,
      text_eq→eq i j,
      text_eq→eq k j,
      text_eq_refl k,
    )

-- Get after Set: the value at the names that have its canonical form, and what was there at others.
pub get-set :
    (h : Header) (k j v : Text)
    → get (set h k v) j ≡ (if text_eq (canonical k) (canonical j) then v else get h j)
unfolding get set
get-set h k j v = ground (arith, lookup-insert (canonical k) (canonical j) (v ∷ []) h)

pub get-set_self : (h : Header) (k v : Text) → get (set h k v) k ≡ v
get-set_self h k v = rw (get-set h k k v, text_eq_refl (canonical k)) refl

pub get-set_ne :
    (h : Header) (k j v : Text) → canonical k ≢ canonical j → get (set h k v) j ≡ get h j
get-set_ne h k j v n = rw (get-set h k j v, ne→text_eq (canonical k) (canonical j) n) refl

-- Keys with a number after a dash or an underscore.
abbrev pub numbered : Text → ℕ → ℕ → Text
numbered key mark i = key ++ mark ∷ decimal i

abbrev caseless : ℕ → Bool
caseless c = ltb c b'A'

cased-caseless : (upper : Bool) (c : ℕ) → caseless c ≡ true → cased upper c ≡ c
unfolding cased
cased-caseless upper c h = ground arith

digit-token : (n : ℕ) → is_token (b'0' + n % 10) ≡ true
unfolding is_token is_alphanumeric
digit-token n = ground arith

dash-token : is_token b'-' ≡ true
unfolding is_token is_alphanumeric is_mark
dash-token = refl

-- What has no letter stays what it is under a canonical name.
letterless : Text → Bool
letterless [] = true
letterless (c ∷ cs) = (is_token c && caseless c) && letterless cs

letterless-cons :
    (c : ℕ) (cs : Text)
    → is_token c ≡ true
    → c < b'A'
    → letterless cs ≡ true
    → letterless (c ∷ cs) ≡ true
unfolding letterless
letterless-cons c cs ht hc h = ground arith

letterless-canonical_from :
    (upper : Bool) (s : Text) → letterless s ≡ true → canonical_from upper s ≡ s
unfolding letterless canonical_from
letterless-canonical_from upper [] h = refl
letterless-canonical_from upper (c ∷ cs) h =
    ground (arith, cased-caseless upper c, letterless-canonical_from (c == b'-') cs)

letterless-all_token : (k s : Text) → letterless s ≡ true → all_token (k ++ s) ≡ all_token k
unfolding letterless all_token
letterless-all_token [] [] h = refl
letterless-all_token [] (c ∷ cs) h = ground (arith, letterless-all_token [] cs)
letterless-all_token (c ∷ cs) s h = ground (arith, letterless-all_token cs s h)

letterless-digits : (f n : ℕ) → letterless (digits f n) ≡ true
unfolding letterless
letterless-digits zero n = refl
letterless-digits (suc f) n = ground (arith, digit-token n, letterless-digits f (n / 10))

letterless-onto :
    (s out : Text) → letterless s ≡ true → letterless out ≡ true → letterless (onto s out) ≡ true
unfolding letterless
letterless-onto [] out hs ho = ho
letterless-onto (c ∷ cs) out hs ho = letterless-onto cs (c ∷ out) (ground arith) (ground arith)

letterless-decimal : (n : ℕ) → letterless (decimal n) ≡ true
unfolding decimal letterless
letterless-decimal n = letterless-onto (digits (suc n) n) [] (letterless-digits (suc n) n) refl

canonical_from-append :
    (upper : Bool) (k s : Text)
    → letterless s ≡ true
    → canonical_from upper (k ++ s) ≡ canonical_from upper k ++ s
unfolding canonical_from
canonical_from-append upper [] s h = letterless-canonical_from upper s h
canonical_from-append upper (c ∷ cs) s h =
    ap (◌∷◌ (cased upper c)) (canonical_from-append (c == b'-') cs s h)

canonical-append : (k s : Text) → letterless s ≡ true → canonical (k ++ s) ≡ canonical k ++ s
unfolding canonical
canonical-append k s h =
    ground (arith, letterless-all_token k s h, canonical_from-append true k s h)

append-cancel : (k s t : Text) → k ++ s ≡ k ++ t → s ≡ t
append-cancel [] s t h = h
append-cancel (c ∷ cs) s t h = append-cancel cs s t (cc)

-- Different numbers after one key give different names of headers.
pub canonical-numbered :
    (key : Text) (i j : ℕ)
    → canonical (numbered key b'-' i) ≡ canonical (numbered key b'-' j)
    → i ≡ j
canonical-numbered key i j h = decimal_inj i j (
    ap (drop 1) (
      append-cancel (canonical key) (b'-' ∷ decimal i) (b'-' ∷ decimal j)
        (sym (dashed i) ∙ h ∙ dashed j)))
  where
    dashed : (n : ℕ) → canonical (numbered key b'-' n) ≡ canonical key ++ b'-' ∷ decimal n
    dashed n =
        canonical-append key (b'-' ∷ decimal n)
          (letterless-cons b'-' (decimal n) dash-token (omega arith) (letterless-decimal n))
