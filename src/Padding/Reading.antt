-- ===== src/Padding/Reading.antt =====
-- One read of the padding layer hands out the next piece of the payload, for every way in which the
-- bytes arrive and every buffer.
use cronet_go.Base.{
  ℕ, suc, ◌≡◌, ◌≤◌, ◌<◌, refl, sym, ap, subst, ◌∙◌, ◌⊎◌, inl, inr, List, [], ◌∷◌, ◌++◌, none, some,
  arith, min, length, drop, length-drop, append_cut, eof, Source, Got, read, wire, Faultless,
  weight, read-Delivers, append_assoc,
}
use cronet_go.Padding.{PaddingConn, ReadResult, read_remainder}
use cronet_go.Padding.Frames.{frames_wire, frames_data, Pending}

-- A read bounded by a list `d` that stands first on the wire takes a front of it.
pub record Within (s : Source) (d rest : List ℕ) (g : Got) : Type 0 where
  pub succeeds : g.error ≡ none
  pub front : d ≡ g.bytes ++ drop (length g.bytes) d
  pub remains : wire g.source ≡ drop (length g.bytes) d ++ rest
  pub clean : Faultless g.source
  pub no_growth : weight g.source ≤ weight s
  pub shrinks : 0 < length d → weight g.source < weight s

pub read-Within :
    (n : ℕ) (s : Source) (d rest : List ℕ)
    → Faultless s
    → wire s ≡ d ++ rest
    → Within s d rest (read (min (suc n) (length d)) s)
read-Within n s [] rest f e =
    let z : min (suc n) 0 ≡ 0 = omega arith in
    rw z (
      unfold read in
      record {
        succeeds = refl;
        front = refl;
        remains = e;
        clean = f;
        no_growth = omega arith;
        shrinks = λ h. absurd (omega arith);
      })
read-Within n s (x ∷ d) rest f e =
    let m : min (suc n) (suc (length d)) ≡ suc (min n (length d)) = omega arith in
    rw m (elim (read-Delivers (min n (length d)) s f) [
      | inl (nil, _) ↦ cc (e, nil)
      | inr (del, short) ↦
          let (front, remains) =
            append_cut (x ∷ d) rest _ _ (sym e ∙ del.splits) (omega (arith, short)) in
          record {
            succeeds = del.succeeds;
            front = front;
            remains = remains;
            clean = del.clean;
            no_growth = omega (arith, del.shrinks);
            shrinks = λ h. del.shrinks;
          }
    ])

read-Within_size :
    (n k : ℕ) (s : Source) (d rest : List ℕ)
    → length d ≡ k
    → Faultless s
    → wire s ≡ d ++ rest
    → Within s d rest (read (min (suc n) k) s)
read-Within_size n k s d rest size f e =
    subst (λ i. Within s d rest (read (min (suc n) i) s)) size (read-Within n s d rest f e)

-- What one read has to achieve.
pub record Progress (s : Source) (payload : List ℕ) (r : ReadResult) : Type 0 where
  pub succeeds : r.got.error ≡ none
  pub left : List ℕ
  pub split : payload ≡ r.got.bytes ++ left
  pub pending : Pending r.conn (wire r.got.source) left
  pub clean : Faultless r.got.source
  pub shrinks : weight r.got.source < weight s

abbrev pub Reads : Source → List ℕ → ReadResult → Type 0
Reads s payload r =
    ((payload ≡ []) × (r.got.error ≡ some eof) × (r.got.bytes ≡ [])) ⊎ Progress s payload r

pub read_remainder-Reads :
    (p : PaddingConn) (n : ℕ) (s : Source) (payload : List ℕ)
    → 0 < p.read_remaining
    → Faultless s
    → Pending p (wire s) payload
    → Progress s payload (read_remainder p s (suc n))
unfolding read_remainder
read_remainder-Reads p n s payload pos f v =
    let after = v.zeros ++ (frames_wire v.frames ++ v.raw) in
    let w = read-Within_size n p.read_remaining s v.rest after v.rest_size f v.on_wire in
    let took = (read (min (suc n) p.read_remaining) s).bytes in
    rw (w.succeeds, read_remainder)
      (record {
        succeeds = w.succeeds;
        left = drop (length took) v.rest ++ (frames_data v.frames ++ v.raw);
        split =
            v.meant
            ∙ ap (λ (x : List ℕ). x ++ (frames_data v.frames ++ v.raw)) w.front
            ∙ append_assoc took _ _;
        pending = record {
          rest = drop (length took) v.rest;
          zeros = v.zeros;
          frames = v.frames;
          raw = v.raw;
          rest_size = omega (arith, length-drop (length took) v.rest, v.rest_size);
          zeros_size = v.zeros_size;
          shaped = v.shaped;
          counted = v.counted;
          raw_last = v.raw_last;
          on_wire = w.remains;
          meant = refl;
        };
        clean = w.clean;
        shrinks = w.shrinks (omega (arith, v.rest_size));
      })
