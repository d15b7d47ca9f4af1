-- ===== src/Padding/RoundTrip.antt =====
-- The reader of one end understands the writer of the other.
use cronet_go.Base.{
  ℕ, zero, suc, ◌≡◌, ◌<◌, refl, ◌∙◌, inl, inr, List, [], ◌++◌, Option, none, some, arith, concat,
  Error, eof, Source, Sink, wire, Faultless, weight,
}
use cronet_go.Padding.{PaddingConn, SkipN, fresh, read_with_padding}
use cronet_go.Padding.Frames.{Pending}
use cronet_go.Padding.Unpadding.{Skips, read_with_padding-Reads}
use cronet_go.Padding.Writing.{write_all, write_all-Emits}

module _ (skip : SkipN) where
  -- A consumer that reads until an error; read number i is with a buffer of `sizes i + 1` bytes.
  pub read_all : ℕ → (ℕ → ℕ) → PaddingConn → Source → List ℕ × Option Error
  read_all zero sizes p s = ([], none)
  read_all (suc fuel) sizes p s =
      let r = read_with_padding skip p s (suc (sizes fuel)) in
      let (rest, e) = read_all fuel sizes r.conn r.got.source in
      elim r.got.error [ some x ↦ (r.got.bytes, some x) | none ↦ (r.got.bytes ++ rest, e) ]

  read_all-Pending :
      (k : Skips skip) (fuel : ℕ) (sizes : ℕ → ℕ) (p : PaddingConn) (s : Source) (payload : List ℕ)
      → weight s < fuel
      → Faultless s
      → Pending p (wire s) payload
      → read_all fuel sizes p s ≡ (payload, some eof)
  unfolding read_all
  read_all-Pending k zero sizes p s payload h f v = absurd (omega arith)
  read_all-Pending k (suc fuel) sizes p s payload h f v =
      elim (read_with_padding-Reads skip k p (sizes fuel) s payload f v) [
        | inl (ended, stop, nothing) ↦ rw (stop, read_all) (cc (ended, nothing))
        | inr g ↦
            let r = read_with_padding skip p s (suc (sizes fuel)) in
            let rest =
              read_all-Pending k fuel sizes r.conn r.got.source g.left (omega (arith, g.shrinks))
                g.clean g.pending in
            rw (g.succeeds, read_all) (rw rest (cc (g.split)))
      ]

  -- Whatever slices are written to one end of a fresh connection, with whatever amounts of padding,
  -- however the bytes of the wire are cut into arrivals, and whatever buffers the other end reads
  -- with: a reader that goes on until an error gets the slices' bytes in order and then the end.
  pub read_all-write_all :
      Skips skip
      → (draw : ℕ → ℕ) → ((i : ℕ) → draw i < 256)
      → (datas : List (List ℕ)) (s : Source) (sizes : ℕ → ℕ) (fuel : ℕ) → Faultless s
      → wire s ≡ (write_all draw fresh (record { taken = []; outcomes = [] }) datas).1.taken
      → weight s < fuel
      → read_all fuel sizes fresh s ≡ (concat datas, some eof)
  read_all-write_all k draw small datas s sizes fuel f e h =
      let sink : Sink = record { taken = []; outcomes = [] } in
      let (emitted, appended, w) = write_all-Emits draw small fresh sink datas refl (omega arith) in
      read_all-Pending k fuel sizes fresh s (concat datas) h f (record {
        rest = [];
        zeros = [];
        frames = w.frames;
        raw = w.raw;
        rest_size = refl;
        zeros_size = refl;
        shaped = w.shaped;
        counted = omega (arith, w.counts, w.bounded);
        raw_last = elim w.raw_last [
          | inl full ↦ inl (omega (arith, full, w.counts))
          | inr no_raw ↦ inr no_raw
        ];
        on_wire = e ∙ appended ∙ w.on_wire;
        meant = w.meant;
      })
