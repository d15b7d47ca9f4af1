-- ===== src/Base.antt =====
-- Names that every module shares: those of the libraries, and children of helpers.
mod Tests
mod Lists
mod Outcome
mod Words
mod Stream
mod Delivery
mod Texts
mod Integers
pub use Tests.*
pub use Lists.*
pub use Outcome.*
pub use Words.*
unfoldable pub use Stream.*
pub use Delivery.*
unfoldable pub use Texts.*
unfoldable pub use Integers.*
pub use Prim.Native.Nat.{ℕ, zero, suc, ◌+◌, ◌-◌, ◌*◌, ◌/◌, ◌%◌, ◌^◌, ◌≤◌, ◌<◌, min, max}
pub use mathlib.Core.Path.{◌≡◌, refl, sym, ap, ◌∙◌, subst}
pub use mathlib.Core.Logic.{◌≢◌, ◌↔◌, ◌⊎◌, inl, inr}
pub use mathlib.Core.Bool.{Bool, true, false, not, ◌&&◌, ◌||◌}
pub use mathlib.Core.Option.{Option, none, some}
pub use mathlib.Core.List.{List, [], ◌∷◌, ◌++◌, map, append-nil, append_assoc}
pub use native.Mathlib.Omega.{arith}
