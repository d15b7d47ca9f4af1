-- ===== src/Padding/Buffers.antt =====
-- naive_conn.go, writeBufferWithPadding: the frame is built inside the caller's buffer, in the room
-- that FrontHeadroom and RearHeadroom asked for.
use cronet_go.Base.{
  ℕ, zero, suc, ◌+◌, ◌^◌, ◌%◌, ◌≡◌, ◌≤◌, ◌<◌, refl, sym, ap, ◌∙◌, List, [], ◌∷◌, ◌++◌, Option, none,
  some, arith, ltb, if◌then◌else◌, length, replicate, put_uint16, Error, Sink, write, Bool-cases,
  append-nil, inl, inr, ◌&&◌,
}
use cronet_go.Padding.{
  PaddingConn, padding_count, max_padding_chunk_size, WriteResult, frame, write_with_padding,
  write_chunked, front_headroom, rear_headroom,
}

-- buf.Buffer of the sing library, as far as this code uses it; `none` is a panic.
pub record BufferApi : Type 1 where
  pub Buffer : Type 0
  pub content : Buffer → List ℕ
  pub front : Buffer → ℕ
  pub rear : Buffer → ℕ
  -- ExtendHeader and the assignment of the bytes that it returned.
  pub extend_header : List ℕ → Buffer → Option Buffer
  pub write_zero_n : ℕ → Buffer → Option Buffer
  pub extend_header_fits :
      (h : List ℕ) (b : Buffer)
      → length h ≤ front b
      → (b' : Buffer) × (extend_header h b ≡ some b')
        × (content b' ≡ h ++ content b)
        × (rear b' ≡ rear b)
  pub write_zero_n_fits :
      (n : ℕ) (b : Buffer)
      → n ≤ rear b
      → (b' : Buffer) × (write_zero_n n b ≡ some b') × (content b' ≡ content b ++ replicate n 0)

-- What the caller learns and what is left: the error, the state and the stream below.
pub record BufferWrite : Type 0 where
  pub conn : PaddingConn
  pub error : Option Error
  pub sink : Sink

abbrev pub without_count : WriteResult → BufferWrite
without_count r = record { conn = r.conn; error = r.error; sink = r.sink }

module _ (api : BufferApi) (draw : ℕ → ℕ) where
  open api use {
    Buffer, content, front, rear, extend_header, write_zero_n, extend_header_fits,
    write_zero_n_fits,
  }

  sent : PaddingConn → Sink → Buffer → BufferWrite
  sent p k b = let (e, k') = write (content b) k in record { conn = p; error = e; sink = k' }

  -- The zeros behind the data, and the write.
  finish_frame : PaddingConn → Sink → ℕ → Option Buffer → Option BufferWrite
  finish_frame p k size none = none
  finish_frame p k size (some b) = elim (if ltb 0 size then write_zero_n size b else some b) [
    | none ↦ none
    | some b' ↦ some (sent (record p { write_padding = p.write_padding + 1 }) k b')
  ]

  -- writeBufferWithPadding.
  pub write_buffer : PaddingConn → Sink → Buffer → Option BufferWrite
  write_buffer p k b =
      let size = draw p.write_padding in
      let n = length (content b) in
      if ltb p.write_padding padding_count
      then if ltb max_padding_chunk_size n
        then some (without_count (write_chunked draw p k (content b)))
        else finish_frame p k size (extend_header (put_uint16 (n % 2 ^ 16) ++ (size % 256 ∷ [])) b)
      else some (sent p k b)

  finish_frame-fits :
      (p : PaddingConn) (k : Sink) (size : ℕ) (b : Buffer)
      → size ≤ rear b
      → (b' : Buffer) × (finish_frame p k size (some b)
          ≡ some (sent (record p { write_padding = p.write_padding + 1 }) k b'))
        × (content b' ≡ content b ++ replicate size 0)
  unfolding finish_frame
  finish_frame-fits p k zero b h = (b, refl, sym (append-nil _))
  finish_frame-fits p k (suc size) b h =
      let (b', made, holds) = write_zero_n_fits (suc size) b h in (b', ground (arith, made), holds)

  -- A buffer with the room that FrontHeadroom and RearHeadroom ask for is written without a panic,
  -- and the stream below gets what a write of the same bytes gives it: through writeWithPadding up to
  -- the largest frame, through writeChunked beyond it.
  pub write_buffer_lem :
      (p : PaddingConn) (k : Sink) (b : Buffer)
      → draw p.write_padding < 256
      → front_headroom p ≤ front b
      → rear_headroom p ≤ rear b
      → write_buffer p k b
        ≡ some (
            without_count (
              if ltb p.write_padding padding_count
                && ltb max_padding_chunk_size (length (content b))
              then write_chunked draw p k (content b)
              else write_with_padding draw p k (content b)))
  unfolding write_buffer front_headroom rear_headroom write_with_padding sent
  write_buffer_lem p k b small room tail = elim (Bool-cases (ltb p.write_padding padding_count)) [
    | inl padded ↦ elim (Bool-cases (ltb max_padding_chunk_size (length (content b)))) [
      | inl large ↦ rw (padded, write_buffer) (rw large refl)
      | inr fits ↦
          let size = draw p.write_padding in
          let header = put_uint16 (length (content b) % 2 ^ 16) ++ (size % 256 ∷ []) in
          let headed = extend_header_fits header b (ground arith) in
          let done = finish_frame-fits p k size headed.0 (ground arith) in
          let framed : content done.0 ≡ frame (content b) size =
            done.2 ∙ ap (λ (c : List ℕ). c ++ replicate size 0) headed.2 in
          let next = record p { write_padding = p.write_padding + 1 } in
          let built : List ℕ → Option BufferWrite =
            λ c. some (record { conn = next; error = (write c k).0; sink = (write c k).1 }) in
          rw (padded, write_buffer) (rw fits (rw headed.1 (done.1 ∙ ap built framed)))
    ]
    | inr raw ↦ rw (raw, write_buffer) refl
  ]
