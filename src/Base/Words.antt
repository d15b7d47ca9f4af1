-- ===== src/Base/Words.antt =====
-- Fixed-width unsigned integers as numbers below a power of two, and big-endian bytes.
use Prim.Native.Nat.{ℕ, ◌+◌, ◌*◌, ◌/◌, ◌%◌, ◌^◌, ◌<◌}
use mathlib.Core.Path.{◌≡◌}
use mathlib.Core.List.{List, [], ◌∷◌}
use native.Mathlib.Omega.{arith}

abbrev pub IsByte : ℕ → Type 0
IsByte b = b < 256

-- binary.BigEndian.PutUint16 of a uint16 conversion, and Uint16.
abbrev pub put_uint16 : ℕ → List ℕ
put_uint16 n = n / 256 % 256 ∷ n % 256 ∷ []

abbrev pub uint16 : ℕ → ℕ → ℕ
uint16 hi lo = hi * 256 + lo

pub uint16-put_uint16 : (n : ℕ) → n < 2 ^ 16 → uint16 (n / 256 % 256) (n % 256) ≡ n
uint16-put_uint16 n h = omega arith
