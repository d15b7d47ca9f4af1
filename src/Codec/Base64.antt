-- ===== src/Codec/Base64.antt =====
-- base64.RawURLEncoding: the encoder that encodeUplink uses, and what its texts stand for.
use cronet_go.Base.{
  ℕ, ◌+◌, ◌-◌, ◌*◌, ◌/◌, ◌%◌, ◌<◌, ◌≡◌, refl, List, [], ◌∷◌, arith, ltb, ◌==◌, if◌then◌else◌, Text,
  All, IsByte,
}

-- The alphabet, by its ranges.
unfoldable pub base64_char : ℕ → ℕ
base64_char n =
    if ltb n 26
    then b'A' + n
    else (if ltb n 52
        then b'a' + (n - 26)
        else (if ltb n 62 then b'0' + (n - 52) else (if n == 62 then b'-' else b'_')))

unfoldable pub base64_encode : List ℕ → Text
unfolding base64_char
base64_encode [] = []
base64_encode (a ∷ []) = base64_char (a / 4) ∷ base64_char (a % 4 * 16) ∷ []
base64_encode (a ∷ b ∷ []) =
    base64_char (a / 4) ∷ base64_char (a % 4 * 16 + b / 16) ∷ base64_char (b % 16 * 4) ∷ []
base64_encode (a ∷ b ∷ c ∷ rest) =
    base64_char (a / 4)
    ∷ base64_char (a % 4 * 16 + b / 16)
    ∷ base64_char (b % 16 * 4 + c / 64)
    ∷ base64_char (c % 64)
    ∷ base64_encode rest

-- The number of a character.
unfoldable pub base64_value : ℕ → ℕ
base64_value c =
    if c == b'-'
    then 62
    else (if c == b'_'
        then 63
        else (if ltb c b'A'
            then c - b'0' + 52
            else (if ltb c b'a' then c - b'A' else c - b'a' + 26)))

-- The bytes of a text, by fours of characters.
unfoldable pub base64_decode : Text → List ℕ
base64_decode [] = []
base64_decode (p ∷ []) = []
base64_decode (p ∷ q ∷ []) = (base64_value p * 4 + base64_value q / 16) ∷ []
base64_decode (p ∷ q ∷ r ∷ []) =
    (base64_value p * 4 + base64_value q / 16)
    ∷ (base64_value q % 16 * 16 + base64_value r / 4)
    ∷ []
base64_decode (p ∷ q ∷ r ∷ s ∷ rest) =
    (base64_value p * 4 + base64_value q / 16)
    ∷ (base64_value q % 16 * 16 + base64_value r / 4)
    ∷ (base64_value r % 4 * 64 + base64_value s)
    ∷ base64_decode rest

base64_value-char : (n : ℕ) → n < 64 → base64_value (base64_char n) ≡ n
unfolding base64_value base64_char
base64_value-char n h = ground arith

pub base64_decode-encode :
    (bytes : List ℕ) → All IsByte bytes → base64_decode (base64_encode bytes) ≡ bytes
unfolding base64_decode base64_encode
base64_decode-encode [] h = refl
base64_decode-encode (a ∷ []) h =
    ground (arith, base64_value-char (a / 4), base64_value-char (a % 4 * 16))
base64_decode-encode (a ∷ b ∷ []) h = ground (
  arith,
  base64_value-char (a / 4),
  base64_value-char (a % 4 * 16 + b / 16),
  base64_value-char (b % 16 * 4),
)
base64_decode-encode (a ∷ b ∷ c ∷ rest) h = ground (
  arith,
  base64_value-char (a / 4),
  base64_value-char (a % 4 * 16 + b / 16),
  base64_value-char (b % 16 * 4 + c / 64),
  base64_value-char (c % 64),
  base64_decode-encode rest,
)
