-- ===== src/Padding/Frames.antt =====
-- What a padded stream means: frames of data with zeros behind them, then raw bytes, and how much of
-- it a reader in a given state has still to hand out.
use cronet_go.Base.{ℕ, ◌+◌, ◌≡◌, ◌≤◌, ◌<◌, ◌^◌, ◌⊎◌, List, [], ◌∷◌, ◌++◌, length, All}
use cronet_go.Padding.{PaddingConn, padding_count, frame}

-- The data of a frame and the number of its zeros.
abbrev pub FrameData : Type 0
FrameData = List ℕ × ℕ

abbrev pub IsFrame : FrameData → Type 0
IsFrame (bytes, size) = (length bytes < 2 ^ 16) × (size < 256)

abbrev pub frames_wire : List FrameData → List ℕ
frames_wire [] = []
frames_wire ((bytes, size) ∷ fs) = frame bytes size ++ frames_wire fs

abbrev pub frames_data : List FrameData → List ℕ
frames_data [] = []
frames_data ((bytes, size) ∷ fs) = bytes ++ frames_data fs

-- A reader in state `p` at the wire `w` has still to hand out `payload`: the rest of a frame, its
-- zeros, the frames not yet begun, and the raw bytes, which come only after the last padded frame.
pub record Pending (p : PaddingConn) (w payload : List ℕ) : Type 0 where
  pub rest : List ℕ
  pub zeros : List ℕ
  pub frames : List FrameData
  pub raw : List ℕ
  pub rest_size : length rest ≡ p.read_remaining
  pub zeros_size : length zeros ≡ p.padding_remaining
  pub shaped : All IsFrame frames
  pub counted : p.read_padding + length frames ≤ padding_count
  pub raw_last : (p.read_padding + length frames ≡ padding_count) ⊎ (raw ≡ [])
  pub on_wire : w ≡ rest ++ (zeros ++ (frames_wire frames ++ raw))
  pub meant : payload ≡ rest ++ (frames_data frames ++ raw)
