-- ===== src/Padding/Unpadding.antt =====
-- One call of readWithPadding, in every state of the reader.
use cronet_go.Base.{
  ℕ, suc, ◌+◌, ◌≡◌, ◌≤◌, refl, sym, ap, ◌∙◌, ◌⊎◌, inl, inr, List, [], ◌∷◌, ◌++◌, Option, none, some,
  arith, ltb, length, drop, All, length-append, length-eq-zero, drop-append_self, eof, Error,
  Source, Got, read, wire, Faultless, weight, read-Delivers, read_full_end, Bool-cases, tests,
  ltb→lt, lt→ltb, append_assoc,
}
use cronet_go.Padding.{
  PaddingConn, padding_count, SkipN, ReadResult, frame, read_frame, read_unskipped, skip_zeros,
  read_with_padding,
}
use cronet_go.Padding.Frames.{FrameData, IsFrame, frames_wire, frames_data, Pending}
use cronet_go.Padding.Reading.{Reads, read_remainder-Reads}
use cronet_go.Padding.Headers.{read_frame-Reads}

-- What the padding layer expects of rw.SkipN on a stream that does not fail and holds enough.
pub record Skips (skip : SkipN) : Type 0 where
  pub skips :
      (n : ℕ) (s : Source)
      → Faultless s
      → n ≤ length (wire s)
      → ((skip n s).0 ≡ none)
        × (wire (skip n s).1 ≡ drop n (wire s))
        × Faultless (skip n s).1
        × (weight (skip n s).1 ≤ weight s)

-- At the end of the stream there is no header, and the reader says so.
read_frame_end :
    (p : PaddingConn) (n : ℕ) (s : Source)
    → Faultless s
    → wire s ≡ []
    → ((read_frame p s (suc n)).got.error ≡ some eof) × ((read_frame p s (suc n)).got.bytes ≡ [])
unfolding read_frame
read_frame_end p n s f e = rw ((read_full_end s 2 f e).0, read_frame) (refl, refl)

read_unskipped-Reads :
    (p : PaddingConn) (n : ℕ) (s : Source) (fs : List FrameData) (raw : List ℕ)
    → Faultless s
    → wire s ≡ frames_wire fs ++ raw
    → p.read_remaining ≡ 0
    → p.padding_remaining ≡ 0
    → All IsFrame fs
    → p.read_padding + length fs ≤ padding_count
    → (p.read_padding + length fs ≡ padding_count) ⊎ (raw ≡ [])
    → Reads s (frames_data fs ++ raw) (read_unskipped p s (suc n))
unfolding read_unskipped
read_unskipped-Reads p n s ((bytes, size) ∷ fs) raw f e rr pr shaped counted last =
    rw (lt→ltb p.read_padding padding_count (omega arith)) (
      inr (
        rw append_assoc (
          read_frame-Reads p n s bytes size fs raw f
            (e ∙ append_assoc (frame bytes size) (frames_wire fs) raw) shaped.0 shaped.1 counted
            last)))
read_unskipped-Reads p n s [] raw f e rr pr shaped counted last =
    elim (Bool-cases (ltb p.read_padding padding_count)) [
      | inl more ↦
          let raw_nil : raw ≡ [] = elim last [
            | inl all ↦ absurd (omega (tests, more))
            | inr none_left ↦ none_left
          ] in
          rw (more, read_unskipped)
            (let end = read_frame_end p n s f (e ∙ raw_nil) in inl (raw_nil, end.0, end.1))
      | inr over ↦
          rw (over, read_unskipped)
            (elim (read-Delivers n s f) [
              | inl (nil, done) ↦ inl (
                sym e ∙ ap wire nil,
                ap (λ (g : Got). g.error) done,
                ap (λ (g : Got). g.bytes) done,
              )
              | inr (del, _) ↦ inr (record {
                succeeds = del.succeeds;
                left = wire (read (suc n) s).source;
                split = sym e ∙ del.splits;
                pending = record {
                  rest = [];
                  zeros = [];
                  frames = [];
                  raw = wire (read (suc n) s).source;
                  rest_size = sym rr;
                  zeros_size = sym pr;
                  shaped = tt;
                  counted = counted;
                  raw_last = inl (omega (tests, over));
                  on_wire = refl;
                  meant = refl;
                };
                clean = del.clean;
                shrinks = del.shrinks;
              })
            ])
    ]

-- From a state with no data left in its frame.
between_frames :
    (p : PaddingConn) (n : ℕ) (s : Source) (payload : List ℕ)
    → Faultless s
    → p.read_remaining ≡ 0
    → p.padding_remaining ≡ 0
    → Pending p (wire s) payload
    → Reads s payload (read_unskipped p s (suc n))
between_frames p n s payload f rr pr v =
    let no_rest = length-eq-zero v.rest (v.rest_size ∙ rr) in
    let no_zeros = length-eq-zero v.zeros (v.zeros_size ∙ pr) in
    let meant = v.meant ∙ ap (λ (x : List ℕ). x ++ (frames_data v.frames ++ v.raw)) no_rest in
    let after = frames_wire v.frames ++ v.raw in
    let on_wire =
      v.on_wire
      ∙ ap (λ (x : List ℕ). x ++ (v.zeros ++ after)) no_rest
      ∙ ap (λ (x : List ℕ). x ++ after) no_zeros in
    rw meant
      (read_unskipped-Reads p n s v.frames v.raw f on_wire rr pr v.shaped v.counted v.raw_last)

skip_zeros_lem :
    (p : PaddingConn) (n : ℕ) (r : Option Error × Source)
    → r.0 ≡ none
    → skip_zeros p n r ≡ read_unskipped (record p { padding_remaining = 0 }) r.1 n
unfolding skip_zeros
skip_zeros_lem p n (none, s) h = refl
skip_zeros_lem p n (some e, s) h = cc

Reads-mono :
    (s t : Source) (payload : List ℕ) (r : ReadResult)
    → weight s ≤ weight t
    → Reads s payload r
    → Reads t payload r
Reads-mono s t payload r le (inl ended) = inl ended
Reads-mono s t payload r le (inr g) = inr (record {
  succeeds = g.succeeds;
  left = g.left;
  split = g.split;
  pending = g.pending;
  clean = g.clean;
  shrinks = omega (arith, g.shrinks);
})

-- From a state with only zeros left in its frame.
over_zeros :
    (skip : SkipN)
    → Skips skip
    → (p : PaddingConn) (n : ℕ) (s : Source) (payload : List ℕ) → Faultless s
    → p.read_remaining ≡ 0
    → Pending p (wire s) payload
    → Reads s payload (skip_zeros p (suc n) (skip p.padding_remaining s))
over_zeros skip k p n s payload f rr v =
    let after = frames_wire v.frames ++ v.raw in
    let no_rest = length-eq-zero v.rest (v.rest_size ∙ rr) in
    let on_wire = v.on_wire ∙ ap (λ (x : List ℕ). x ++ (v.zeros ++ after)) no_rest in
    let enough : p.padding_remaining ≤ length (wire s) =
      omega (arith, ap length on_wire, length-append v.zeros after, v.zeros_size) in
    let (skipped, remains, clean, light) = k.skips p.padding_remaining s f enough in
    let rest = (skip p.padding_remaining s).1 in
    let dropped =
      remains
      ∙ ap (drop p.padding_remaining) on_wire
      ∙ ap (λ (i : ℕ). drop i (v.zeros ++ after)) (sym v.zeros_size)
      ∙ drop-append_self v.zeros after in
    let meant = v.meant ∙ ap (λ (x : List ℕ). x ++ (frames_data v.frames ++ v.raw)) no_rest in
    rw (skip_zeros_lem p (suc n) (skip p.padding_remaining s) skipped) (
      rw meant (
        Reads-mono rest s _ _ light (
          read_unskipped-Reads (record p { padding_remaining = 0 }) n rest v.frames v.raw clean
            dropped rr refl v.shaped v.counted v.raw_last)))

-- One read of a stream that holds whole frames ends it, when the payload is used up, or hands out the
-- next piece of the payload, and leaves the rest pending.
pub read_with_padding-Reads :
    (skip : SkipN)
    → Skips skip
    → (p : PaddingConn) (n : ℕ) (s : Source) (payload : List ℕ) → Faultless s
    → Pending p (wire s) payload
    → Reads s payload (read_with_padding skip p s (suc n))
unfolding read_with_padding
read_with_padding-Reads skip k p n s payload f v = elim (Bool-cases (ltb 0 p.read_remaining)) [
  | inl some_left ↦
      rw (some_left, read_with_padding)
        (inr (read_remainder-Reads p n s payload (ltb→lt _ _ some_left) f v))
  | inr none_left ↦
      rw (none_left, read_with_padding)
        (elim (Bool-cases (ltb 0 p.padding_remaining)) [
          | inl zeros ↦ rw zeros (over_zeros skip k p n s payload f (omega (tests, none_left)) v)
          | inr no_zeros ↦ rw no_zeros (
              between_frames p n s payload f (omega (tests, none_left)) (omega (tests, no_zeros)) v)
        ])
]
