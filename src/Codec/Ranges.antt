-- ===== src/Codec/Ranges.antt =====
-- browserRangeRand: what is drawn lies in the range.
use cronet_go.Base.{ℕ, ◌+◌, ◌%◌, ◌≤◌, arith, pos, pos_part, ◌≤ℤ◌, ◌-ℤ◌, +ℤ_parts, -ℤ_parts}
use native.Mathlib.Nat.{mod-lt, zero-lt-suc}
use cronet_go.Codec.{Range, browser_range_rand}

-- A draw is at least the lower end, at most the upper one where the ends are in order, and the lower end
-- where they are not: never outside 32 bits when the ends are inside.
pub browser_range_rand-bounds :
    (r : Range) (raw : ℕ)
    → (r.from ≤ℤ browser_range_rand r raw) × (r.from ≤ℤ r.to → browser_range_rand r raw ≤ℤ r.to)
unfolding browser_range_rand
browser_range_rand-bounds r raw =
    ground (arith, offset, +ℤ_parts r.from (pos (raw % (width + 1))), -ℤ_parts r.to r.from)
  where
    width : ℕ
    width = pos_part (r.to -ℤ r.from)

    offset : raw % (width + 1) ≤ width
    offset = omega (arith, mod-lt raw (zero-lt-suc width))
