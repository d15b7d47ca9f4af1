-- ===== src/Padding.antt =====
-- naive_conn.go: the padding that NaiveProxy puts around the first frames of a tunnel. The first
-- eight reads and the first eight writes carry a header of three bytes, the size of the data (16 bits,
-- big endian) and the size of the zeros that follow it; after them the stream is raw.
pub mod Frames
pub mod Reading
pub mod Headers
pub mod Unpadding
pub mod Writing
pub mod RoundTrip
pub mod Buffers
mod Examples
use cronet_go.Base.{
  ℕ, zero, suc, ◌+◌, ◌-◌, ◌/◌, ◌%◌, ◌^◌, List, [], ◌∷◌, ◌++◌, Option, none, some, Bool, min, ltb,
  ◌==◌, if◌then◌else◌, length, take, drop, replicate, put_uint16, uint16, Error, Source, Got, read,
  read_full, Sink, write,
}

abbrev pub padding_count : ℕ
padding_count = 8

abbrev pub max_padding_chunk_size : ℕ
max_padding_chunk_size = 65535

pub record PaddingConn : Type 0 where
  pub read_padding : ℕ
  pub write_padding : ℕ
  pub read_remaining : ℕ
  pub padding_remaining : ℕ

pub record ReadResult : Type 0 where
  pub conn : PaddingConn
  pub got : Got

-- What the first bytes of a header say; a short header is never read.
abbrev pub data_size : List ℕ → ℕ
data_size (hi ∷ lo ∷ rest) = uint16 hi lo
data_size _ = 0

abbrev pub zeros_size : List ℕ → ℕ
zeros_size (hi ∷ lo ∷ size ∷ rest) = size
zeros_size _ = 0

-- rw.SkipN of the sing library: reads n bytes and drops them.
abbrev pub SkipN : Type 0
SkipN = ℕ → Source → Option Error × Source

-- The rest of a frame whose header has been read.
unfoldable pub read_remainder : PaddingConn → Source → ℕ → ReadResult
read_remainder p s n =
    let g = read (min n p.read_remaining) s in
    elim g.error [
      | some e ↦ record { conn = p; got = g }
      | none ↦ record {
        conn = record p { read_remaining = p.read_remaining - length g.bytes };
        got = g;
      }
    ]

-- As much of a frame's data as the buffer takes, once its header told both sizes.
unfoldable pub read_data : PaddingConn → Source → ℕ → ℕ → ℕ → ReadResult
read_data p s n size zeros =
    let g = read (min n size) s in
    elim g.error [
      | some e ↦ record { conn = p; got = g }
      | none ↦ record {
        conn = record p {
          read_padding = p.read_padding + 1;
          read_remaining = size - length g.bytes;
          padding_remaining = zeros;
        };
        got = g;
      }
    ]

-- The header of the next frame, and as much of its data as the buffer takes.
unfoldable pub read_frame : PaddingConn → Source → ℕ → ReadResult
read_frame p s n =
    let h = read_full s 3 [] in
    elim h.error [
      | some e ↦ record { conn = p; got = record { bytes = []; error = some e; source = h.source } }
      | none ↦ read_data p h.source n (data_size h.bytes) (zeros_size h.bytes)
    ]

unfoldable pub read_unskipped : PaddingConn → Source → ℕ → ReadResult
read_unskipped p s n =
    if ltb p.read_padding padding_count
    then read_frame p s n
    else record { conn = p; got = read n s }

-- The zeros are forgotten only when they have been skipped.
unfoldable pub skip_zeros : PaddingConn → ℕ → Option Error × Source → ReadResult
skip_zeros p n (some e, s) = record {
  conn = p;
  got = record { bytes = []; error = some e; source = s };
}
skip_zeros p n (none, s) = read_unskipped (record p { padding_remaining = 0 }) s n

-- readWithPadding, for a buffer of n bytes.
unfoldable pub read_with_padding : SkipN → PaddingConn → Source → ℕ → ReadResult
read_with_padding skip p s n =
    if ltb 0 p.read_remaining
    then read_remainder p s n
    else if ltb 0 p.padding_remaining
    then skip_zeros p n (skip p.padding_remaining s)
    else read_unskipped p s n

pub record WriteResult : Type 0 where
  pub conn : PaddingConn
  pub count : ℕ
  pub error : Option Error
  pub sink : Sink

-- The bytes of one frame: its header, its data and its zeros.
abbrev pub frame : List ℕ → ℕ → List ℕ
frame bytes size = put_uint16 (length bytes % 2 ^ 16) ++ (size % 256 ∷ bytes ++ replicate size 0)

abbrev accepted : List ℕ → Option Error → ℕ
accepted bytes none = length bytes
accepted bytes (some e) = 0

abbrev written : PaddingConn → List ℕ → Option Error × Sink → WriteResult
written p bytes (e, k) = record { conn = p; count = accepted bytes e; error = e; sink = k }

-- writeWithPadding. `draw i` is the size that rand.Intn(256) gives for the frame number i.
unfoldable pub write_with_padding : (ℕ → ℕ) → PaddingConn → Sink → List ℕ → WriteResult
write_with_padding draw p k bytes =
    if ltb p.write_padding padding_count
    then written (record p { write_padding = p.write_padding + 1 }) bytes
        (write (frame bytes (draw p.write_padding)) k)
    else written p bytes (write bytes k)

-- The rounds of writeChunked, with the number of bytes as fuel: each round takes one at least.
unfoldable pub write_chunked_loop : (ℕ → ℕ) → ℕ → ℕ → PaddingConn → Sink → List ℕ → ℕ → WriteResult
write_chunked_loop draw limit fuel p k [] n = record { conn = p; count = n; error = none; sink = k }
write_chunked_loop draw limit zero p k (x ∷ bytes) n = record {
  conn = p;
  count = n;
  error = none;
  sink = k;
}
write_chunked_loop draw limit (suc fuel) p k (x ∷ bytes) n =
    let r = write_with_padding draw p k (take limit (x ∷ bytes)) in
    elim r.error [
      | some e ↦ record r { count = n + r.count }
      | none ↦
          write_chunked_loop draw limit fuel r.conn r.sink (drop limit (x ∷ bytes)) (n + r.count)
    ]

unfoldable pub write_chunked : (ℕ → ℕ) → PaddingConn → Sink → List ℕ → WriteResult
write_chunked draw p k bytes =
    write_chunked_loop draw max_padding_chunk_size (length bytes) p k bytes 0

pub front_headroom : PaddingConn → ℕ
front_headroom p = if ltb p.write_padding padding_count then 3 else 0

pub rear_headroom : PaddingConn → ℕ
rear_headroom p = if ltb p.write_padding padding_count then 255 else 0

pub writer_mtu : PaddingConn → ℕ
writer_mtu p = if ltb p.write_padding padding_count then max_padding_chunk_size else 0

pub reader_replaceable : PaddingConn → Bool
reader_replaceable p = p.read_padding == padding_count

pub writer_replaceable : PaddingConn → Bool
writer_replaceable p = p.write_padding == padding_count

-- NewNaiveConn leaves the embedded paddingConn at its zero value.
abbrev pub fresh : PaddingConn
fresh = record { read_padding = 0; write_padding = 0; read_remaining = 0; padding_remaining = 0 }
