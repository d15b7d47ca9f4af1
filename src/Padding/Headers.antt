-- ===== src/Padding/Headers.antt =====
-- Reading a frame from its header on.
use cronet_go.Base.{
  ℕ, suc, ◌+◌, ◌≡◌, ◌≤◌, ◌<◌, refl, ap, ◌∙◌, ◌⊎◌, List, [], ◌++◌, arith, min, length, take, drop,
  All, length-drop, replicate, length-replicate, ◌^◌, Source, read, read_full, wire, Faultless,
  weight, read_full-Fills, append_assoc,
}
use cronet_go.Padding.{
  PaddingConn, padding_count, frame, data_size, zeros_size, read_data, read_frame,
}
use cronet_go.Padding.Frames.{FrameData, IsFrame, frames_wire, frames_data}
use cronet_go.Padding.Reading.{read-Within, Progress}

-- The read of a frame's data, when its header has been taken from a stream `s₀`.
read_data-Reads :
    (p : PaddingConn) (n : ℕ) (s₀ s : Source) (bytes : List ℕ) (size : ℕ) (fs : List FrameData)
    (raw : List ℕ)
    → Faultless s
    → weight s < weight s₀
    → wire s ≡ bytes ++ (replicate size 0 ++ (frames_wire fs ++ raw))
    → All IsFrame fs
    → p.read_padding + suc (length fs) ≤ padding_count
    → (p.read_padding + suc (length fs) ≡ padding_count) ⊎ (raw ≡ [])
    → Progress s₀ (bytes ++ (frames_data fs ++ raw)) (read_data p s (suc n) (length bytes) size)
unfolding read_data
read_data-Reads p n s₀ s bytes size fs raw f less e shaped counted last =
    let w = read-Within n s bytes (replicate size 0 ++ (frames_wire fs ++ raw)) f e in
    let took = (read (min (suc n) (length bytes)) s).bytes in
    rw (w.succeeds, read_data)
      (record {
        succeeds = w.succeeds;
        left = drop (length took) bytes ++ (frames_data fs ++ raw);
        split = ap (λ (x : List ℕ). x ++ (frames_data fs ++ raw)) w.front ∙ append_assoc took _ _;
        pending = record {
          rest = drop (length took) bytes;
          zeros = replicate size 0;
          frames = fs;
          raw = raw;
          rest_size = length-drop (length took) bytes;
          zeros_size = length-replicate size 0;
          shaped = shaped;
          counted = omega arith;
          raw_last = ground arith;
          on_wire = w.remains;
          meant = refl;
        };
        clean = w.clean;
        shrinks = omega (arith, w.no_growth);
      })

-- The header of a frame says how much data and how many zeros follow.
header_sizes :
    (bytes : List ℕ) (size : ℕ) (rest : List ℕ)
    → (length bytes < 2 ^ 16) × (size < 256)
    → (data_size (take 3 (frame bytes size ++ rest)) ≡ length bytes)
      × (zeros_size (take 3 (frame bytes size ++ rest)) ≡ size)
header_sizes bytes size rest h = (omega arith, omega arith)

pub read_frame-Reads :
    (p : PaddingConn) (n : ℕ) (s : Source) (bytes : List ℕ) (size : ℕ) (fs : List FrameData)
    (raw : List ℕ)
    → Faultless s
    → wire s ≡ frame bytes size ++ (frames_wire fs ++ raw)
    → (length bytes < 2 ^ 16) × (size < 256)
    → All IsFrame fs
    → p.read_padding + suc (length fs) ≤ padding_count
    → (p.read_padding + suc (length fs) ≡ padding_count) ⊎ (raw ≡ [])
    → Progress s (bytes ++ (frames_data fs ++ raw)) (read_frame p s (suc n))
unfolding read_frame
read_frame-Reads p n s bytes size fs raw f e small shaped counted last =
    let h = read_full-Fills s 3 [] f (rw e (omega arith)) in
    let sizes = header_sizes bytes size (frames_wire fs ++ raw) small in
    let three = h.filled ∙ ap (take 3) e in
    let got = read_full s 3 [] in
    let data_is : data_size got.bytes ≡ length bytes = ap data_size three ∙ sizes.0 in
    let zeros_is : zeros_size got.bytes ≡ size = ap zeros_size three ∙ sizes.1 in
    rw (h.succeeds, read_frame)
      (rw (data_is, zeros_is)
        (read_data-Reads p n s got.source bytes size fs raw h.clean (omega (arith, h.shrinks))
          (h.remains ∙ ap (drop 3) e ∙ append_assoc bytes _ _) shaped counted last))
