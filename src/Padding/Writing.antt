-- ===== src/Padding/Writing.antt =====
-- The writes of the padding layer put whole frames on the wire, then raw bytes, and lose nothing.
use cronet_go.Base.{
  ℕ, zero, suc, ◌+◌, ◌^◌, ◌≡◌, ◌≤◌, ◌<◌, refl, sym, ap, subst, ◌∙◌, ◌⊎◌, inl, inr, List, [], ◌∷◌,
  ◌++◌, none, arith, tests, ltb, length, take, drop, All, concat, length-append, length-take,
  length-drop, take-append-drop, length-eq-zero, append-nil, append_assoc, Sink, write, Bool-cases,
}
use cronet_go.Padding.{
  PaddingConn, padding_count, WriteResult, frame, write_with_padding, write_chunked_loop,
  write_chunked, max_padding_chunk_size,
}
use cronet_go.Padding.Frames.{FrameData, IsFrame, frames_wire, frames_data}

frames_wire-append :
    (fs gs : List FrameData) → frames_wire (fs ++ gs) ≡ frames_wire fs ++ frames_wire gs
frames_wire-append [] gs = refl
frames_wire-append ((bytes, size) ∷ fs) gs =
    ap (◌++◌ (frame bytes size)) (frames_wire-append fs gs)
    ∙ sym (append_assoc (frame bytes size) (frames_wire fs) (frames_wire gs))

frames_data-append :
    (fs gs : List FrameData) → frames_data (fs ++ gs) ≡ frames_data fs ++ frames_data gs
frames_data-append [] gs = refl
frames_data-append ((bytes, size) ∷ fs) gs =
    ap (◌++◌ bytes) (frames_data-append fs gs)
    ∙ sym (append_assoc bytes (frames_data fs) (frames_data gs))

All-append : (fs gs : List FrameData) → All IsFrame fs → All IsFrame gs → All IsFrame (fs ++ gs)
All-append [] gs h k = k
All-append (f ∷ fs) gs h k = (h.0, All-append fs gs h.1 k)

-- What a writer puts on the wire while its count of padded frames goes from `i` to `j`.
pub record Emits (i j : ℕ) (bytes payload : List ℕ) : Type 0 where
  pub frames : List FrameData
  pub raw : List ℕ
  pub shaped : All IsFrame frames
  pub counts : j ≡ i + length frames
  pub bounded : j ≤ padding_count
  pub raw_last : (j ≡ padding_count) ⊎ (raw ≡ [])
  pub on_wire : bytes ≡ frames_wire frames ++ raw
  pub meant : payload ≡ frames_data frames ++ raw

Emits-nil : (i : ℕ) → i ≤ padding_count → Emits i i [] []
Emits-nil i h = record {
  frames = [];
  raw = [];
  shaped = tt;
  counts = omega arith;
  bounded = h;
  raw_last = inr refl;
  on_wire = refl;
  meant = refl;
}

-- Raw bytes are followed by raw bytes only, so what two writes emit joins.
Emits-append :
    {i j k : ℕ} (b c p q : List ℕ) → Emits i j b p → Emits j k c q → Emits i k (b ++ c) (p ++ q)
Emits-append b c p q x y = elim x.raw_last [
  | inl full ↦
      let no_more = length-eq-zero y.frames (omega (arith, y.counts, y.bounded)) in
      let wire_is = y.on_wire ∙ ap (λ (f : List FrameData). frames_wire f ++ y.raw) no_more in
      let data_is = y.meant ∙ ap (λ (f : List FrameData). frames_data f ++ y.raw) no_more in
      record {
        frames = x.frames;
        raw = x.raw ++ y.raw;
        shaped = x.shaped;
        counts = omega (arith, x.counts, y.counts, y.bounded);
        bounded = y.bounded;
        raw_last = inl (omega (arith, y.counts, y.bounded));
        on_wire = rw (x.on_wire, wire_is) (append_assoc (frames_wire x.frames) x.raw y.raw);
        meant = rw (x.meant, data_is) (append_assoc (frames_data x.frames) x.raw y.raw);
      }
  | inr no_raw ↦
      let wire_is = x.on_wire ∙ ap (◌++◌ (frames_wire x.frames)) no_raw ∙ append-nil _ in
      let data_is = x.meant ∙ ap (◌++◌ (frames_data x.frames)) no_raw ∙ append-nil _ in
      record {
        frames = x.frames ++ y.frames;
        raw = y.raw;
        shaped = All-append x.frames y.frames x.shaped y.shaped;
        counts = omega (arith, x.counts, y.counts, length-append x.frames y.frames);
        bounded = y.bounded;
        raw_last = y.raw_last;
        on_wire =
            rw (wire_is, y.on_wire, frames_wire-append)
              (sym (append_assoc (frames_wire x.frames) (frames_wire y.frames) y.raw));
        meant =
            rw (data_is, y.meant, frames_data-append)
              (sym (append_assoc (frames_data x.frames) (frames_data y.frames) y.raw));
      }
]

-- A write that succeeds in full.
pub record Writes (p : PaddingConn) (k : Sink) (n : ℕ) (payload : List ℕ) (r : WriteResult)
    : Type 0 where
  pub succeeds : r.error ≡ none
  pub counted : r.count ≡ n + length payload
  pub open_sink : r.sink.outcomes ≡ []
  pub emitted : List ℕ
  pub appended : r.sink.taken ≡ k.taken ++ emitted
  pub emits : Emits p.write_padding r.conn.write_padding emitted payload

write_open :
    (bytes : List ℕ) (k : Sink)
    → k.outcomes ≡ []
    → write bytes k ≡ (none, record { taken = k.taken ++ bytes; outcomes = [] })
unfolding write
write_open bytes k e = rw (e, write)

-- The calls of Write on one connection, one after the other.
unfoldable pub write_all : (ℕ → ℕ) → PaddingConn → Sink → List (List ℕ) → PaddingConn × Sink
write_all draw p k [] = (p, k)
write_all draw p k (bytes ∷ rest) =
    let r = write_chunked draw p k bytes in write_all draw r.conn r.sink rest

module _ (draw : ℕ → ℕ) (small : (i : ℕ) → draw i < 256) where
  pub write_with_padding-Writes :
      (p : PaddingConn) (k : Sink) (bytes : List ℕ)
      → k.outcomes ≡ []
      → length bytes < 2 ^ 16
      → p.write_padding ≤ padding_count
      → Writes p k 0 bytes (write_with_padding draw p k bytes)
  unfolding write_with_padding
  write_with_padding-Writes p k bytes o l c =
      elim (Bool-cases (ltb p.write_padding padding_count)) [
        | inl padded ↦
            rw (padded, write_with_padding)
              (rw (write_open _ k o) (record {
                succeeds = refl;
                counted = omega arith;
                open_sink = refl;
                emitted = frame bytes (draw p.write_padding);
                appended = refl;
                emits = record {
                  frames = (bytes, draw p.write_padding) ∷ [];
                  raw = [];
                  shaped = ((l, small p.write_padding), tt);
                  counts = refl;
                  bounded = omega (tests, padded);
                  raw_last = inr refl;
                  on_wire = sym (append-nil _ ∙ append-nil _);
                  meant = sym (append-nil _ ∙ append-nil _);
                };
              }))
        | inr raw ↦
            rw (raw, write_with_padding)
              (rw (write_open _ k o) (record {
                succeeds = refl;
                counted = omega arith;
                open_sink = refl;
                emitted = bytes;
                appended = refl;
                emits = record {
                  frames = [];
                  raw = bytes;
                  shaped = tt;
                  counts = omega arith;
                  bounded = c;
                  raw_last = inl (omega (tests, raw));
                  on_wire = refl;
                  meant = refl;
                };
              }))
      ]

  write_chunked_loop-Writes :
      (limit fuel : ℕ) (p : PaddingConn) (k : Sink) (bytes : List ℕ) (n : ℕ)
      → 0 < limit
      → limit < 2 ^ 16
      → length bytes ≤ fuel
      → k.outcomes ≡ []
      → p.write_padding ≤ padding_count
      → Writes p k n bytes (write_chunked_loop draw limit fuel p k bytes n)
  unfolding write_chunked_loop
  write_chunked_loop-Writes limit fuel p k [] n lo hi h o c = record {
    succeeds = refl;
    counted = omega arith;
    open_sink = o;
    emitted = [];
    appended = sym (append-nil k.taken);
    emits = Emits-nil p.write_padding c;
  }
  write_chunked_loop-Writes limit zero p k (x ∷ bytes) n lo hi h o c = absurd (omega arith)
  write_chunked_loop-Writes limit (suc fuel) p k (x ∷ bytes) n lo hi h o c =
      let front = take limit (x ∷ bytes) in
      let back = drop limit (x ∷ bytes) in
      let one = write_with_padding draw p k front in
      let w =
        write_with_padding-Writes p k front o (omega (arith, length-take limit (x ∷ bytes))) c in
      let more =
        write_chunked_loop-Writes limit fuel one.conn one.sink back (n + one.count) lo hi
          (omega (arith, length-drop limit (x ∷ bytes))) w.open_sink w.emits.bounded in
      rw (w.succeeds, write_chunked_loop)
        (record {
          succeeds = more.succeeds;
          counted = omega (
            arith,
            more.counted,
            w.counted,
            length-append front back,
            ap length (take-append-drop limit (x ∷ bytes)),
          );
          open_sink = more.open_sink;
          emitted = w.emitted ++ more.emitted;
          appended =
              more.appended
              ∙ ap (λ (t : List ℕ). t ++ more.emitted) w.appended
              ∙ append_assoc k.taken w.emitted more.emitted;
          emits =
              subst (Emits p.write_padding _ (w.emitted ++ more.emitted))
                (take-append-drop limit (x ∷ bytes))
                (Emits-append w.emitted more.emitted front back w.emits more.emits);
        })

  -- Write accepts every byte of any slice, in as many frames as it takes, when the stream below
  -- takes what it is given.
  pub write_chunked-Writes :
      (p : PaddingConn) (k : Sink) (bytes : List ℕ)
      → k.outcomes ≡ []
      → p.write_padding ≤ padding_count
      → Writes p k 0 bytes (write_chunked draw p k bytes)
  unfolding write_chunked
  write_chunked-Writes p k bytes o c =
      write_chunked_loop-Writes max_padding_chunk_size (length bytes) p k bytes 0 (omega arith)
        (omega arith) (omega arith) o c

  pub write_all-Emits :
      (p : PaddingConn) (k : Sink) (datas : List (List ℕ))
      → k.outcomes ≡ []
      → p.write_padding ≤ padding_count
      → (emitted : List ℕ) × ((write_all draw p k datas).1.taken ≡ k.taken ++ emitted)
        × Emits p.write_padding (write_all draw p k datas).0.write_padding emitted (concat datas)
  unfolding write_all
  write_all-Emits p k [] o c = ([], sym (append-nil k.taken), Emits-nil p.write_padding c)
  write_all-Emits p k (bytes ∷ rest) o c =
      let w = write_chunked-Writes p k bytes o c in
      let r = write_chunked draw p k bytes in
      let (emitted, appended, emits) =
        write_all-Emits r.conn r.sink rest w.open_sink w.emits.bounded in
      (
        w.emitted ++ emitted,
        appended
            ∙ ap (λ (t : List ℕ). t ++ emitted) w.appended
            ∙ append_assoc k.taken w.emitted emitted,
        Emits-append w.emitted emitted bytes (concat rest) w.emits emits,
      )
