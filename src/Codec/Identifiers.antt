-- ===== src/Codec/Identifiers.antt =====
-- generateSessionID: an identifier of bytes of a table, or a random UUID.
pub mod Alphabets
pub mod Shapes
use cronet_go.Base.{
  ℕ, zero, suc, ◌+◌, ◌-◌, ◌/◌, ◌%◌, List, [], ◌∷◌, ◌++◌, Option, none, some, Bool, true, false,
  ◌&&◌, if◌then◌else◌, ltb, ◌==◌, length, get_elem?, Text, codes, is_empty, text_eq, pos_part,
  le_int, not,
}
use cronet_go.Codec.{Codec, browser_range_rand}
use cronet_go.Codec.Padding.{byte_or}

abbrev pub predefined_tables : List (Text × Text)
predefined_tables =
    (codes "ALPHABET", codes "ABCDEFGHIJKLMNOPQRSTUVWXYZ")
    ∷ (codes "Alphabet", codes "ABCDEFGHIJKLMNOPQRSTUVWXYZabcdefghijklmnopqrstuvwxyz")
    ∷ (codes "BASE36", codes "0123456789ABCDEFGHIJKLMNOPQRSTUVWXYZ")
    ∷ (codes "Base62", codes "0123456789ABCDEFGHIJKLMNOPQRSTUVWXYZabcdefghijklmnopqrstuvwxyz")
    ∷ (codes "HEX", codes "0123456789ABCDEF")
    ∷ (codes "alphabet", codes "abcdefghijklmnopqrstuvwxyz")
    ∷ (codes "base36", codes "0123456789abcdefghijklmnopqrstuvwxyz")
    ∷ (codes "hex", codes "0123456789abcdef")
    ∷ (codes "number", codes "0123456789")
    ∷ []

unfoldable pub table_named : Text → List (Text × Text) → Text
table_named name [] = name
table_named name ((k, t) ∷ rest) = if text_eq k name then t else table_named name rest

-- A filled buffer of n bytes: rand.Read fills it whole, or fails.
from_table : Text → (ℕ → ℕ) → ℕ → ℕ → Text
from_table table random i zero = []
from_table table random i (suc n) =
    byte_or 0 (get_elem? table (random i % length table)) ∷ from_table table random (i + 1) n

hex_digit : ℕ → ℕ
hex_digit n = if ltb n 10 then b'0' + n else b'a' + (n - 10)

hex_bytes : (ℕ → ℕ) → ℕ → ℕ → Text
unfolding hex_digit
hex_bytes raw i zero = []
hex_bytes raw i (suc n) =
    hex_digit (raw i / 16 % 16) ∷ hex_digit (raw i % 16) ∷ hex_bytes raw (i + 1) n

-- `raw[6] & 0x0f | 0x40` and `raw[8] & 0x3f | 0x80`.
versioned : (ℕ → ℕ) → ℕ → ℕ
versioned raw i = if i == 6 then raw 6 % 16 + 64 else (if i == 8 then raw 8 % 64 + 128 else raw i)

unfoldable pub uuid : Option (ℕ → ℕ) → Text
unfolding versioned hex_bytes
uuid none = codes "00000000-0000-4000-8000-000000000000"
uuid (some random) =
    let raw = versioned random in
    hex_bytes raw 0 4
    ++ b'-'
      ∷ (hex_bytes raw 4 2
          ++ b'-' ∷ (hex_bytes raw 6 2 ++ b'-' ∷ (hex_bytes raw 8 2 ++ b'-' ∷ hex_bytes raw 10 6)))

with_table : Text → ℕ → Option (ℕ → ℕ) → Option Text
unfolding from_table
with_table table n none = none
with_table table n (some random) =
    if ltb 0 n && ltb 0 (length table) then some (from_table table random 0 n) else none

or_uuid : Option Text → Option (ℕ → ℕ) → Text
or_uuid (some t) second = t
or_uuid none second = uuid second

-- The table of the options, by name or by itself.
unfoldable pub session_alphabet : Codec → Text
unfolding table_named
session_alphabet c = table_named c.session_table predefined_tables

unfoldable pub session_size : Codec → ℕ → ℕ
session_size c draw =
    let r = c.session_length in
    pos_part (if le_int r.to r.from then r.from else browser_range_rand r draw)

-- `draw` is the word for the length, and `first` and `second` are the two reads of random bytes.
unfoldable pub generate_session_id : Codec → ℕ → Option (ℕ → ℕ) → Option (ℕ → ℕ) → Text
unfolding with_table or_uuid session_alphabet session_size uuid
generate_session_id c draw first second =
    if is_empty c.session_table
    then uuid second
    else or_uuid (with_table (session_alphabet c) (session_size c draw) first) second
