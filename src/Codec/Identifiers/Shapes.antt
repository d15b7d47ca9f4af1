-- ===== src/Codec/Identifiers/Shapes.antt =====
-- The two shapes of a session's identifier.
use cronet_go.Base.{
  ℕ, zero, suc, ◌+◌, ◌/◌, ◌%◌, ◌<◌, ◌≤◌, ◌≡◌, ◌≢◌, refl, sym, subst, ℤ, ◌≤ℤ◌, le_int, pos_part,
  lt→ltb, [], ◌∷◌, ◌++◌, Option, none, some, Bool, true, false, ◌&&◌, ◌||◌, arith, if◌then◌else◌,
  if_elim, ltb, leb, ◌==◌, length, Text, codes, is_empty,
}
use native.Mathlib.Nat.{mod-lt}
use cronet_go.Codec.{Codec, browser_range_rand}
use cronet_go.Codec.Ranges.{browser_range_rand-bounds}
use cronet_go.Codec.Identifiers.Alphabets.{
  stands_for, every, every-get_elem?, session_alphabet-stands_for,
}
use cronet_go.Codec.Identifiers.{
  from_table, hex_digit, hex_bytes, versioned, uuid, with_table, or_uuid, session_alphabet,
  session_size, generate_session_id,
}

-- A text like a pattern: x stands for a lower hexadecimal digit, y for one of 8, 9, a and b.
is_hex : ℕ → Bool
is_hex c = leb b'0' c && leb c b'9' || leb b'a' c && leb c b'f'

fits : ℕ → ℕ → Bool
unfolding is_hex
fits k c =
    if k == b'x'
    then is_hex c
    else (if k == b'y' then (c == b'8') || (c == b'9') || (c == b'a') || (c == b'b') else c == k)

unfoldable pub resembles : Text → Text → Bool
unfolding fits
resembles [] [] = true
resembles [] (c ∷ cs) = false
resembles (k ∷ ks) [] = false
resembles (k ∷ ks) (c ∷ cs) = fits k c && resembles ks cs

resembles-cons :
    (k c : ℕ) (ks cs : Text)
    → fits k c ≡ true
    → resembles ks cs ≡ true
    → resembles (k ∷ ks) (c ∷ cs) ≡ true
unfolding resembles
resembles-cons k c ks cs e h = rw (e, h) refl

hex_digit-fits : (n : ℕ) → n < 16 → fits b'x' (hex_digit n) ≡ true
unfolding fits hex_digit
hex_digit-fits n h = ground arith

variant-fits : (r : ℕ) → fits b'y' (hex_digit ((r % 64 + 128) / 16 % 16)) ≡ true
unfolding fits hex_digit
variant-fits r = ground arith

version-fits : (r : ℕ) → fits b'4' (hex_digit ((r % 16 + 64) / 16 % 16)) ≡ true
unfolding fits hex_digit
version-fits r = ground arith

-- Two x for each byte.
pairs : ℕ → Text → Text
pairs zero ks = ks
pairs (suc n) ks = b'x' ∷ b'x' ∷ pairs n ks

hex_bytes-resembles :
    (raw : ℕ → ℕ) (i n : ℕ) (ks cs : Text)
    → resembles ks cs ≡ true
    → resembles (pairs n ks) (hex_bytes raw i n ++ cs) ≡ true
unfolding pairs hex_bytes
hex_bytes-resembles raw i zero ks cs h = h
hex_bytes-resembles raw i (suc n) ks cs h =
    resembles-cons b'x' _ _ _ (hex_digit-fits (raw i / 16 % 16) (omega arith)) (
      resembles-cons b'x' _ _ _ (hex_digit-fits (raw i % 16) (omega arith))
        (hex_bytes-resembles raw (i + 1) n ks cs h))

abbrev pub uuid_pattern : Text
uuid_pattern = codes "xxxxxxxx-xxxx-4xxx-yxxx-xxxxxxxxxxxx"

dash-fits : (ks cs : Text) → resembles ks cs ≡ true → resembles (b'-' ∷ ks) (b'-' ∷ cs) ≡ true
unfolding resembles fits
dash-fits ks cs h = h

-- A version 4 UUID, from random bytes or where there are none.
uuid-resembles : (random : Option (ℕ → ℕ)) → resembles uuid_pattern (uuid random) ≡ true
unfolding uuid versioned hex_bytes pairs
uuid-resembles none = unfold resembles in refl
uuid-resembles (some random) =
    let raw = versioned random in
    hex_bytes-resembles raw 0 4 _ _ (
      dash-fits _ _ (
        hex_bytes-resembles raw 4 2 _ _ (
          dash-fits _ _ (
            resembles-cons b'4' _ _ _ (version-fits (random 6)) (
              resembles-cons b'x' _ _ _ (hex_digit-fits ((random 6 % 16 + 64) % 16) (omega arith)) (
                hex_bytes-resembles raw 7 1 _ _ (
                  dash-fits _ _ (
                    resembles-cons b'y' _ _ _ (variant-fits (random 8)) (
                      resembles-cons b'x' _ _ _
                        (hex_digit-fits ((random 8 % 64 + 128) % 16) (omega arith))
                        (hex_bytes-resembles raw 9 1 _ _ (
                          dash-fits _ _ (
                            hex_bytes-resembles raw 10 6 [] []
                              (unfold resembles in refl)))))))))))))

-- As many characters as the options' range allows, all of them of the table that the options name.
pub record Drawn (c : Codec) (t : Text) : Type 0 where
  pub least : pos_part c.session_length.from ≤ length t
  pub most : length t ≤ pos_part c.session_length.to
  pub members : every (stands_for c.session_table) t ≡ true

from_table-every :
    (f : ℕ → Bool) (table : Text) (random : ℕ → ℕ) (i n : ℕ)
    → every f table ≡ true
    → 0 < length table
    → (every f (from_table table random i n) ≡ true) × (length (from_table table random i n) ≡ n)
unfolding from_table every
from_table-every f table random i zero e h = (refl, refl)
from_table-every f table random i (suc n) e h = ground (
  arith,
  every-get_elem? f table (random i % length table) e (mod-lt (random i) h),
  from_table-every f table random (i + 1) n e h,
)

session_size-bounds :
    (c : Codec) (draw : ℕ)
    → c.session_length.from ≤ℤ c.session_length.to
    → (pos_part c.session_length.from ≤ session_size c draw)
      × (session_size c draw ≤ pos_part c.session_length.to)
unfolding session_size
session_size-bounds c draw h =
    let r = c.session_length in
    let b = browser_range_rand-bounds r draw in
    (
      size_least r.from r.to (browser_range_rand r draw) h b.0,
      size_most r.from r.to (browser_range_rand r draw) h (b.1 h),
    )
  where
    size_least : (a b x : ℤ) → a ≤ℤ b → a ≤ℤ x → pos_part a ≤ pos_part (if le_int b a then a else x)
    size_least a b x h k = ground arith

    size_most : (a b x : ℤ) → a ≤ℤ b → x ≤ℤ b → pos_part (if le_int b a then a else x) ≤ pos_part b
    size_most a b x h k = ground arith

abbrev pub IsUuid : Text → Type 0
IsUuid t = resembles uuid_pattern t ≡ true

-- What an identifier is, by the options and by whether the read of random bytes for it succeeds.
pub record Named (c : Codec) (first : Option (ℕ → ℕ)) (t : Text) : Type 0 where
  -- without a table, without a length, or when the read fails: a version 4 UUID
  pub unnamed : c.session_table ≡ [] → IsUuid t
  pub no_length : pos_part c.session_length.to ≡ 0 → IsUuid t
  pub failed : first ≡ none → IsUuid t
  -- otherwise characters of the table
  pub drawn : c.session_table ≢ [] → 0 < pos_part c.session_length.from → first ≢ none → Drawn c t

unnamed_lem :
    (c : Codec) (draw : ℕ) (first second : Option (ℕ → ℕ))
    → c.session_table ≡ []
    → IsUuid (generate_session_id c draw first second)
unfolding generate_session_id
unnamed_lem c draw first second e = rw e (uuid-resembles second)

failed_lem :
    (c : Codec) (draw : ℕ) (second : Option (ℕ → ℕ))
    → IsUuid (generate_session_id c draw none second)
unfolding generate_session_id with_table or_uuid
failed_lem c draw second =
    if_elim IsUuid (is_empty c.session_table) _ _ (λ e. uuid-resembles second)
      (λ e. uuid-resembles second)

no_length_lem :
    (c : Codec) (draw : ℕ) (random : ℕ → ℕ) (second : Option (ℕ → ℕ))
    → session_size c draw ≡ 0
    → IsUuid (generate_session_id c draw (some random) second)
unfolding generate_session_id with_table or_uuid
no_length_lem c draw random second e =
    if_elim IsUuid (is_empty c.session_table) _ _ (λ h. uuid-resembles second)
      (λ h. rw e (uuid-resembles second))

drawn_lem :
    (c : Codec) (draw : ℕ) (random : ℕ → ℕ) (second : Option (ℕ → ℕ))
    → c.session_table ≢ []
    → 0 < session_size c draw
    → 0 < length (session_alphabet c)
    → generate_session_id c draw (some random) second
      ≡ from_table (session_alphabet c) random 0 (session_size c draw)
unfolding generate_session_id with_table or_uuid
drawn_lem c draw random second named size table =
    let e : is_empty c.session_table ≡ false = not_empty c.session_table named in
    let a : ltb 0 (session_size c draw) ≡ true = lt→ltb _ _ size in
    let b : ltb 0 (length (session_alphabet c)) ≡ true = lt→ltb _ _ table in rw e (rw a (rw b refl))
  where
    not_empty : (t : Text) → t ≢ [] → is_empty t ≡ false
    not_empty [] n = absurd (n refl)
    not_empty (x ∷ xs) n = refl

-- For a range in order: an identifier is a version 4 UUID in lower case without a table, when no length is
-- asked for, and when the read of random bytes fails, whatever the second read gives. Otherwise, for a
-- positive lower end, its length lies in the range and each of its characters is one that the name of the
-- table stands for: the letters and digits of a predefined name, or the bytes of the name itself.
pub generate_session_id-Named :
    (c : Codec) (draw : ℕ) (first second : Option (ℕ → ℕ))
    → c.session_length.from ≤ℤ c.session_length.to
    → Named c first (generate_session_id c draw first second)
generate_session_id-Named c draw none second h = record {
  unnamed = λ e. failed_lem c draw second;
  no_length = λ e. failed_lem c draw second;
  failed = λ e. failed_lem c draw second;
  drawn = λ named size read. absurd (read refl);
}
generate_session_id-Named c draw (some random) second h =
    let b = session_size-bounds c draw h in
    record {
      unnamed = λ e. unnamed_lem c draw (some random) second e;
      no_length = λ e. no_length_lem c draw random second (omega (arith, b, e));
      failed = λ e. cc e;
      drawn = λ named size read.
          let p : 0 < length c.session_table = positive c.session_table named in
          let a = session_alphabet-stands_for c p in
          let t =
            from_table-every (stands_for c.session_table) (session_alphabet c) random 0
              (session_size c draw) a.0 a.1 in
          let e = drawn_lem c draw random second named (omega (arith, b, size)) a.1 in
          subst (Drawn c) (sym e)
            (record { least = omega (arith, b, t.1); most = omega (arith, b, t.1); members = t.0 });
    }
  where
    positive : (t : Text) → t ≢ [] → 0 < length t
    positive [] n = absurd (n refl)
    positive (x ∷ xs) n = omega arith
