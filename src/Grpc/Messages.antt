-- ===== src/Grpc/Messages.antt =====
-- What encode writes, readMessage takes apart.
use cronet_go.Base.{
  ℕ, zero, suc, ◌+◌, ◌/◌, ◌%◌, ◌^◌, ◌≡◌, ◌≤◌, refl, ap, ◌∙◌, List, [], ◌∷◌, ◌++◌, drop-append_self,
  drop_all, length-append, some, length, drop, arith,
}
use cronet_go.Grpc.{
  Protowire, uint32, streaming_read_buffer_size, browser_max_grpc_message, encode, consume_fields,
  decoded,
}

module _ (proto : Protowire) where
  open proto use {
    tag, delimited, size_bytes, consume_tag, consume_bytes, consume_field_value, tag_size,
    delimited_size, size_bytes_bound, consume_tag_lem, consume_bytes_lem,
  }

  pub body : List ℕ → List ℕ
  body bytes = tag 1 2 ++ delimited bytes

  pub body_size :
      (bytes : List ℕ)
      → length bytes ≤ streaming_read_buffer_size
      → (length (body bytes) ≡ 1 + size_bytes (length bytes))
        × (length (body bytes) ≤ browser_max_grpc_message)
  unfolding body
  body_size bytes h =
      let size = length-append (tag 1 2) (delimited bytes) in
      let bound = size_bytes_bound (length bytes) h in
      (
        omega (arith, size, tag_size, delimited_size bytes),
        omega (arith, size, tag_size, delimited_size bytes, bound),
      )

  consume_fields-body_at :
      (fuel : ℕ) (bytes message : List ℕ)
      → message ≡ body bytes
      → fuel ≡ length message
      → consume_fields proto fuel [] message ≡ decoded bytes
  unfolding consume_fields body
  consume_fields-body_at fuel bytes [] e f =
      absurd (omega (arith, ap length e, length-append (tag 1 2) (delimited bytes), tag_size))
  consume_fields-body_at zero bytes (x ∷ message) e f = ground arith
  consume_fields-body_at (suc fuel) bytes (x ∷ message) e f =
      let n = length (tag 1 2) in
      let t : consume_tag (x ∷ message) ≡ some (1, 2, n) =
        ap consume_tag e ∙ consume_tag_lem (delimited bytes) in
      let v : drop n (x ∷ message) ≡ delimited bytes =
        ap (drop n) e ∙ drop-append_self (tag 1 2) (delimited bytes) in
      let left : drop (length (delimited bytes)) (drop n (x ∷ message)) ≡ [] =
        ap (drop (length (delimited bytes))) v
        ∙ drop_all (length (delimited bytes)) (delimited bytes) (omega arith) in
      rw (t, consume_fields) (rw v (rw (consume_bytes_lem bytes) (rw left refl)))

  -- The loop over the fields of a message that encode made gives its bytes.
  pub consume_fields-body :
      (bytes : List ℕ) → consume_fields proto (length (body bytes)) [] (body bytes) ≡ decoded bytes
  consume_fields-body bytes =
      consume_fields-body_at (length (body bytes)) bytes (body bytes) refl refl

  -- The header of a message tells its size.
  pub encode_lem :
      (bytes : List ℕ)
      → length bytes ≤ streaming_read_buffer_size
      → let n = length (body bytes) in
        (encode proto bytes
          ≡ 0 ∷ n / 16777216 % 256 ∷ n / 65536 % 256 ∷ n / 256 % 256 ∷ n % 256 ∷ body bytes)
        × (uint32 (n / 16777216 % 256) (n / 65536 % 256) (n / 256 % 256) (n % 256) ≡ n)
  unfolding encode body
  encode_lem bytes h =
      let (size, bound) = body_size bytes h in
      let same : (1 + size_bytes (length bytes)) % 2 ^ 32 ≡ length (body bytes) =
        omega (arith, size, bound) in
      (rw same refl, omega (arith, bound))
