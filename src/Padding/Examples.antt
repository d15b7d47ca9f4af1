-- ===== src/Padding/Examples.antt =====
-- The padding on concrete streams and buffers.
use cronet_go.Base.{
  ℕ, ◌-◌, ◌≡◌, ◌≤◌, ◌<◌, refl, List, [], ◌∷◌, ◌++◌, Option, none, some, arith, leb, if◌then◌else◌,
  length, replicate, concat, eof, Source, chunk, read_full, read_full-Fills, wire, Sink, write, inl,
}
use cronet_go.Padding.{
  PaddingConn, SkipN, fresh, read_with_padding, front_headroom, rear_headroom, write_chunked,
  write_chunked_loop, write_with_padding,
}
use cronet_go.Padding.Frames.{Pending}
use cronet_go.Padding.Reading.{Reads}
use cronet_go.Padding.Unpadding.{Skips, read_with_padding-Reads}
use cronet_go.Padding.Writing.{Writes, write_all, write_chunked-Writes}
use cronet_go.Padding.RoundTrip.{read_all, read_all-write_all}
use cronet_go.Padding.Buffers.{BufferApi, without_count, write_buffer, write_buffer_lem}

-- A SkipN that reads what it drops.
abbrev skip_full : SkipN
skip_full n s = let g = read_full s n [] in (g.error, g.source)

skip_full-Skips : Skips skip_full
skip_full-Skips = record {
  skips = λ n s f h.
      let g = read_full-Fills s n [] f h in
      (g.succeeds, g.remains, g.clean, omega (arith, g.shrinks));
}

-- Two slices, three zeros behind each, cut into arrivals in the middle of a header.
abbrev three : ℕ → ℕ
three i = 3

abbrev slices : List (List ℕ)
slices = (10 ∷ 20 ∷ []) ∷ (30 ∷ []) ∷ []

abbrev arrivals : Source
arrivals =
    chunk (0 ∷ [])
    ∷ chunk (2 ∷ 3 ∷ 10 ∷ 20 ∷ 0 ∷ 0 ∷ [])
    ∷ chunk (0 ∷ 0 ∷ 1 ∷ 3 ∷ 30 ∷ 0 ∷ 0 ∷ 0 ∷ [])
    ∷ []

abbrev empty_sink : Sink
empty_sink = record { taken = []; outcomes = [] }

three_small : (i : ℕ) → three i < 256
three_small i = omega arith

arrivals-wire : wire arrivals ≡ (write_all three fresh empty_sink slices).1.taken
unfolding write_all write_chunked write_chunked_loop write_with_padding write
arrivals-wire = refl

read_all-write_all_example :
    read_all skip_full 100 (λ i. 0) fresh arrivals ≡ (concat slices, some eof)
read_all-write_all_example =
    read_all-write_all skip_full skip_full-Skips three three_small slices arrivals (λ i. 0) 100 tt
      arrivals-wire (omega arith)

-- A reader that has 2 bytes of a frame and 1 zero before it, and then sees a last frame.
abbrev midway : PaddingConn
midway = record { read_padding = 7; write_padding = 0; read_remaining = 2; padding_remaining = 1 }

abbrev midway_source : Source
midway_source = chunk (5 ∷ []) ∷ chunk (6 ∷ 0 ∷ 0 ∷ 1 ∷ 0 ∷ 7 ∷ 8 ∷ 9 ∷ []) ∷ []

midway-Pending : Pending midway (wire midway_source) (5 ∷ 6 ∷ 7 ∷ 8 ∷ 9 ∷ [])
midway-Pending = record {
  rest = 5 ∷ 6 ∷ [];
  zeros = 0 ∷ [];
  frames = (7 ∷ [], 0) ∷ [];
  raw = 8 ∷ 9 ∷ [];
  rest_size = refl;
  zeros_size = refl;
  shaped = ((omega arith, omega arith), tt);
  counted = omega arith;
  raw_last = inl refl;
  on_wire = refl;
  meant = refl;
}

read_with_padding-Reads_example :
    Reads midway_source
      (5 ∷ 6 ∷ 7 ∷ 8 ∷ 9 ∷ [])
      (read_with_padding skip_full midway midway_source 4)
read_with_padding-Reads_example =
    read_with_padding-Reads skip_full skip_full-Skips midway 3 midway_source
      (5 ∷ 6 ∷ 7 ∷ 8 ∷ 9 ∷ []) tt midway-Pending

write_chunked-Writes_example :
    Writes fresh empty_sink 0 (1 ∷ 2 ∷ []) (write_chunked three fresh empty_sink (1 ∷ 2 ∷ []))
write_chunked-Writes_example =
    write_chunked-Writes three three_small fresh empty_sink (1 ∷ 2 ∷ []) refl (omega arith)

-- A buffer with room before and behind its content.
abbrev Roomy : Type 0
Roomy = ℕ × List ℕ × ℕ

abbrev extend_roomy : List ℕ → Roomy → Option Roomy
extend_roomy h (front, content, rear) =
    if leb (length h) front then some (front - length h, h ++ content, rear) else none

abbrev zero_roomy : ℕ → Roomy → Option Roomy
zero_roomy n (front, content, rear) =
    if leb n rear then some (front, content ++ replicate n 0, rear - n) else none

extend_roomy_fits :
    (h : List ℕ) (b : Roomy)
    → length h ≤ b.0
    → (b' : Roomy) × (extend_roomy h b ≡ some b') × (b'.1 ≡ h ++ b.1) × (b'.2 ≡ b.2)
extend_roomy_fits h (front, content, rear) e =
    ((front - length h, h ++ content, rear), ground arith, refl, refl)

zero_roomy_fits :
    (n : ℕ) (b : Roomy)
    → n ≤ b.2
    → (b' : Roomy) × (zero_roomy n b ≡ some b') × (b'.1 ≡ b.1 ++ replicate n 0)
zero_roomy_fits n (front, content, rear) e =
    ((front, content ++ replicate n 0, rear - n), ground arith, refl)

abbrev roomy : BufferApi
roomy = record {
  Buffer = Roomy;
  content = λ b. b.1;
  front = λ b. b.0;
  rear = λ b. b.2;
  extend_header = extend_roomy;
  write_zero_n = zero_roomy;
  extend_header_fits = extend_roomy_fits;
  write_zero_n_fits = zero_roomy_fits;
}

write_buffer_lem_example :
    write_buffer roomy three fresh empty_sink (3, 1 ∷ 2 ∷ [], 255)
    ≡ some (without_count (write_with_padding three fresh empty_sink (1 ∷ 2 ∷ [])))
unfolding front_headroom rear_headroom
write_buffer_lem_example =
    write_buffer_lem roomy three fresh empty_sink (3, 1 ∷ 2 ∷ [], 255) (omega arith) (omega arith)
      (omega arith)
