-- ===== src/Base/Delivery.antt =====
-- What `read` and `read_full` deliver from a stream that does not fail.
use Prim.Native.Nat.{ℕ, zero, suc, ◌+◌, ◌-◌, ◌≤◌, ◌<◌}
use mathlib.Core.Path.{◌≡◌, refl, ap, sym, ◌∙◌}
use mathlib.Core.Logic.{◌⊎◌, inl, inr}
use mathlib.Core.List.{List, [], ◌∷◌, ◌++◌, append_assoc, append-nil}
use mathlib.Core.Option.{none, some}
use native.Mathlib.Omega.{arith}
use cronet_go.Base.Tests.{leb, leb→le, leb→gt, Bool-cases}
use cronet_go.Base.Lists.{
  length, take, drop, length-append, take-append-drop, length-drop, length-take, take-append_le,
  drop-append_le, take-append_ge, drop-append_ge,
}
use cronet_go.Base.Outcome.{eof}
use cronet_go.Base.Stream.{chunk, fault, Source, Got, read, read_full, wire, Faultless, weight}

-- A read that takes nothing of the wire but something of the stream, or a piece of the wire.
pub record Delivers (s : Source) (g : Got) : Type 0 where
  pub succeeds : g.error ≡ none
  pub splits : wire s ≡ g.bytes ++ wire g.source
  pub clean : Faultless g.source
  pub shrinks : weight g.source < weight s

pub read-Delivers :
    (n : ℕ) (s : Source)
    → Faultless s
    → ((s ≡ []) × (read (suc n) s ≡ record { bytes = []; error = some eof; source = [] }))
      ⊎ (Delivers s (read (suc n) s) × (length (read (suc n) s).bytes ≤ suc n))
unfolding read
read-Delivers n [] f = inl (refl, refl)
read-Delivers n (fault e ∷ s) f = absurd f
read-Delivers n (chunk c ∷ s) f = elim (Bool-cases (leb (length c) (suc n))) [
  | inl small ↦
      rw (small, read)
        (inr (
          record {
            succeeds = refl;
            splits = refl;
            clean = f;
            shrinks = omega (arith, length-append c (wire s));
          },
          leb→le _ _ small,
        ))
  | inr big ↦
      rw (big, read)
        (inr (
          record {
            succeeds = refl;
            splits =
                ap (λ (x : List ℕ). x ++ wire s) (sym (take-append-drop (suc n) c))
                ∙ append_assoc (take (suc n) c) (drop (suc n) c) (wire s);
            clean = f;
            shrinks = omega (
              arith,
              length-append (drop (suc n) c) (wire s),
              length-append c (wire s),
              length-drop (suc n) c,
              leb→gt _ _ big,
            );
          },
          omega (arith, length-take (suc n) c),
        ))
]

-- What `read_full` returns when the wire holds all it asks for.
pub record Fills (s : Source) (n : ℕ) (got : List ℕ) (g : Got) : Type 0 where
  pub succeeds : g.error ≡ none
  pub filled : g.bytes ≡ got ++ take n (wire s)
  pub remains : wire g.source ≡ drop n (wire s)
  pub clean : Faultless g.source
  pub shrinks : weight g.source + n ≤ weight s

pub read_full-Fills :
    (s : Source) (n : ℕ) (got : List ℕ)
    → Faultless s
    → n ≤ length (wire s)
    → Fills s n got (read_full s n got)
unfolding read_full
read_full-Fills s zero got f h = record {
  succeeds = refl;
  filled = sym (append-nil got);
  remains = refl;
  clean = f;
  shrinks = omega arith;
}
read_full-Fills [] (suc n) got f h = absurd (omega arith)
read_full-Fills (fault e ∷ s) (suc n) got f h = absurd f
read_full-Fills (chunk c ∷ s) (suc n) got f h = elim (Bool-cases (leb (length c) (suc n))) [
  | inl small ↦
      let le : length c ≤ suc n = leb→le _ _ small in
      let more =
        read_full-Fills s (suc n - length c) (got ++ c) f
          (omega (arith, length-append c (wire s))) in
      rw (small, read_full)
        (record {
          succeeds = more.succeeds;
          filled =
              more.filled
              ∙ append_assoc got c (take (suc n - length c) (wire s))
              ∙ ap (◌++◌ got) (sym (take-append_ge (suc n) c (wire s) le));
          remains = more.remains ∙ sym (drop-append_ge (suc n) c (wire s) le);
          clean = more.clean;
          shrinks = omega (arith, more.shrinks, length-append c (wire s));
        })
  | inr big ↦
      let gt : suc n < length c = leb→gt _ _ big in
      rw (big, read_full)
        (record {
          succeeds = refl;
          filled = ap (◌++◌ got) (sym (take-append_le (suc n) c (wire s) (omega arith)));
          remains = sym (drop-append_le (suc n) c (wire s) (omega arith));
          clean = f;
          shrinks = omega (
            arith,
            length-append (drop (suc n) c) (wire s),
            length-append c (wire s),
            length-drop (suc n) c,
          );
        })
]

-- At the end of the stream `read_full` reports the end, and nothing was read.
pub read_full_end :
    (s : Source) (n : ℕ)
    → Faultless s
    → wire s ≡ []
    → ((read_full s (suc n) []).error ≡ some eof) × ((read_full s (suc n) []).bytes ≡ [])
unfolding read_full
read_full_end [] n f h = (refl, refl)
read_full_end (fault e ∷ s) n f h = absurd f
read_full_end (chunk [] ∷ s) n f h = ground (arith, read_full_end s n f h)
read_full_end (chunk (x ∷ c) ∷ s) n f h = cc
