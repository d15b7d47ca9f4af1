-- ===== src/Base/Outcome.antt =====
-- Go's error values that the modelled code makes or compares, and fallible results.
use Prim.Native.Nat.{ℕ}

-- The errors are compared by identity (`err == io.EOF`, `errors.Is`) and never by text, so each
-- one that the code makes with a message is a constructor, and `other n` is any error of a callee.
pub data Error : Type 0 where
  eof unexpected_eof closed_pipe no_progress : Error
  canceled deadline_exceeded : Error
  net_closed os_deadline_exceeded os_invalid timeout : Error
  net_error : ℕ → Error
  failure : ℕ → Error
  other : ℕ → Error

pub data Result {ℓ} (A : Type ℓ) : Type ℓ where
  ok : A → Result A
  err : Error → Result A
