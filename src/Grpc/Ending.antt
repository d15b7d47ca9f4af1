-- ===== src/Grpc/Ending.antt =====
-- readContext ends: each message that it reads takes bytes from the stream.
use cronet_go.Base.{
  ℕ, zero, suc, ◌+◌, ◌-◌, ◌≡◌, ◌≤◌, ◌<◌, refl, sym, ap, subst, ◌∙◌, ◌⊎◌, List, [], ◌∷◌, ◌++◌,
  Option, none, some, Bool, true, false, Bool-cases, ◌&&◌, ◌==◌, if◌then◌else◌, length, take, drop,
  length-append, length-take, length-drop, arith, Error, Option-cases, inl, inr,
}
use cronet_go.Grpc.{
  Protowire, uint32, Reads, arriving, Reader, fill, MessageRead, Fields, decoded, malformed,
  unfinished, consume_fields, decode, read_body, read_sized, read_message, ReaderRead, from_cache,
  failed_read, is_interrupt, read_loop, read_context,
}
use cronet_go.Grpc.Filling.{fill-Fills}

-- The bytes that a reader has and those that are still to come.
abbrev pub unread : Reader → Reads → ℕ
unread r rs = length r.header + length r.frame + length (arriving rs)

List-cases : (xs : List ℕ) → (xs ≡ []) ⊎ ((y : ℕ) × (ys : List ℕ) × (xs ≡ y ∷ ys))
List-cases [] = inl refl
List-cases (y ∷ ys) = inr (y, ys, refl)

-- Whoever is asked for too little keeps the count too.
fill_size :
    (want : ℕ) (have : List ℕ) (rs : Reads)
    → let f = fill want have rs in
      length f.have + length (arriving f.rest) ≡ length have + length (arriving rs)
unfolding fill
fill_size want have [] = omega arith
fill_size want have ((bytes, some e) ∷ rs) =
    let n = want - length have in
    ground (
      arith,
      length-append have bytes,
      length-append bytes (arriving rs),
      length-append have (take n bytes),
      length-take n bytes,
      length-drop n bytes,
      length-append (drop n bytes) (arriving rs),
    )
fill_size want have ((bytes, none) ∷ rs) =
    let n = want - length have in
    ground (
      arith,
      length-append have bytes,
      length-append bytes (arriving rs),
      length-append have (take n bytes),
      length-take n bytes,
      length-drop n bytes,
      length-append (drop n bytes) (arriving rs),
      fill_size want (have ++ bytes) rs,
    )

is_over : Fields → Bool
is_over unfinished = false
is_over malformed = true
is_over (decoded bytes) = true

-- A field takes a byte at least, so as many rounds as bytes are enough.
consume_fields-ends :
    (proto : Protowire) (fuel : ℕ) (cache message : List ℕ)
    → length message ≤ fuel
    → is_over (consume_fields proto fuel cache message) ≡ true
unfolding consume_fields is_over
consume_fields-ends proto fuel cache [] h = ground arith
consume_fields-ends proto zero cache (x ∷ message) h = absurd (omega arith)
consume_fields-ends proto (suc fuel) cache (x ∷ message) h =
    elim (Option-cases (proto.consume_tag (x ∷ message))) [
      | inl bad ↦ ground (arith, bad)
      | inr ((number, wire_type, n), tagged) ↦
          let value = drop n (x ∷ message) in
          let shorter : length value ≤ fuel = omega (
            arith,
            proto.tag_takes (x ∷ message) number wire_type n tagged,
            length-drop n (x ∷ message),
            h,
          ) in
          elim (Bool-cases (number == 1 && wire_type == 2)) [
            | inl wanted ↦ elim (Option-cases (proto.consume_bytes value)) [
              | inl bad ↦ ground (arith, tagged, wanted, bad)
              | inr ((bytes, k), taken) ↦ ground (
                arith,
                tagged,
                wanted,
                taken,
                consume_fields-ends proto fuel bytes (drop k value)
                    (omega (arith, length-drop k value)),
              )
            ]
            | inr other ↦ elim (Option-cases (proto.consume_field_value number wire_type value)) [
              | inl bad ↦ ground (arith, tagged, other, bad)
              | inr (k, skipped) ↦ ground (
                arith,
                tagged,
                other,
                skipped,
                consume_fields-ends proto fuel cache (drop k value)
                    (omega (arith, length-drop k value)),
              )
            ]
          ]
    ]

decode-ends : (proto : Protowire) (r : Reader) (rs : Reads) → (decode proto r rs).finished ≡ true
unfolding decode is_over
decode-ends proto r rs =
    ground (arith, consume_fields-ends proto (length r.frame) [] r.frame (omega arith))

read_body-ends :
    (proto : Protowire) (size : ℕ) (r : Reader) (rs : Reads)
    → (read_body proto size r rs).finished ≡ true
unfolding read_body
read_body-ends proto size r rs =
    let f = fill size r.frame rs in
    ground (arith, decode-ends proto (record r { frame = f.have }) f.rest)

read_sized-ends :
    (proto : Protowire) (have : List ℕ) (r : Reader) (rs : Reads)
    → (read_sized proto have r rs).finished ≡ true
unfolding read_sized
read_sized-ends proto (flag ∷ a ∷ b ∷ c ∷ d ∷ more) r rs =
    ground (arith, read_body-ends proto (uint32 a b c d) r rs)
read_sized-ends proto [] r rs = refl
read_sized-ends proto (a ∷ []) r rs = refl
read_sized-ends proto (a ∷ b ∷ []) r rs = refl
read_sized-ends proto (a ∷ b ∷ c ∷ []) r rs = refl
read_sized-ends proto (a ∷ b ∷ c ∷ d ∷ []) r rs = refl

-- Each call of readMessage returns.
read_message-ends :
    (proto : Protowire) (r : Reader) (rs : Reads) → (read_message proto r rs).finished ≡ true
unfolding read_message
read_message-ends proto r rs =
    let f = fill 5 r.header rs in
    ground (arith, read_sized-ends proto f.have (record r { header = f.have }) f.rest)

decode_size :
    (proto : Protowire) (r : Reader) (rs : Reads)
    → (decode proto r rs).error ≡ none
    → ((decode proto r rs).reader.header ≡ [])
      × ((decode proto r rs).reader.frame ≡ [])
      × ((decode proto r rs).rest ≡ rs)
unfolding decode
decode_size proto r rs e = ground (arith, decode-ends proto r rs)

-- After a message is read, what is left is less than there was.
read_body_size :
    (proto : Protowire) (size : ℕ) (r : Reader) (rs : Reads)
    → let m = read_body proto size r rs in
      m.error ≡ none
      → (m.reader.header ≡ [])
        × (m.reader.frame ≡ [])
        × (length (arriving m.rest) ≤ length r.frame + length (arriving rs))
unfolding read_body
read_body_size proto size r rs e =
    let f = fill size r.frame rs in
    let r' = record r { frame = f.have } in
    ground (arith, fill_size size r.frame rs, decode_size proto r' f.rest)

read_sized_size :
    (proto : Protowire) (have : List ℕ) (r : Reader) (rs : Reads)
    → let m = read_sized proto have r rs in
      m.error ≡ none
      → (m.reader.header ≡ [])
        × (m.reader.frame ≡ [])
        × (length (arriving m.rest) ≤ length r.frame + length (arriving rs))
unfolding read_sized
read_sized_size proto (flag ∷ a ∷ b ∷ c ∷ d ∷ more) r rs e =
    ground (arith, read_body_size proto (uint32 a b c d) r rs)
read_sized_size proto [] r rs e = ground arith
read_sized_size proto (a ∷ []) r rs e = ground arith
read_sized_size proto (a ∷ b ∷ []) r rs e = ground arith
read_sized_size proto (a ∷ b ∷ c ∷ []) r rs e = ground arith
read_sized_size proto (a ∷ b ∷ c ∷ d ∷ []) r rs e = ground arith

read_message_size :
    (proto : Protowire) (r : Reader) (rs : Reads)
    → length r.header ≤ 5
    → let m = read_message proto r rs in
      m.error ≡ none → (m.reader.header ≡ []) × (unread m.reader m.rest < unread r rs)
unfolding read_message
read_message_size proto r rs h e =
    let f = fill 5 r.header rs in
    let v = fill-Fills 5 r.header rs h in
    let r' = record r { header = f.have } in
    elim (Option-cases f.error) [
      | inr (x, failed) ↦ ground (arith, failed)
      | inl ok ↦
          let same : read_message proto r rs ≡ read_sized proto f.have r' f.rest =
            rw (ok, read_message) refl in
          let (a, b, c) =
            read_sized_size proto f.have r' f.rest
              (ap (λ (m : MessageRead). m.error) (sym same) ∙ e) in
          subst
            (λ (m : MessageRead). (m.reader.header ≡ []) × (unread m.reader m.rest < unread r rs))
            (sym same)
            (a, omega (arith, ap length a, ap length b, c, fill_size 5 r.header rs, v.full ok))
    ]

loop_again :
    (proto : Protowire) (fuel n : ℕ) (r : Reader) (rs : Reads) (t : ReaderRead)
    → r.cache ≡ []
    → (read_message proto r rs).error ≡ none
    → read_loop proto fuel n (read_message proto r rs).reader (read_message proto r rs).rest
      ≡ some t
    → read_loop proto (suc fuel) n r rs ≡ some t
unfolding read_loop
loop_again proto fuel n r rs t e ok next = ground (arith, e, ok, next, read_message-ends proto r rs)

read_loop_ends :
    (proto : Protowire) (fuel n : ℕ) (r : Reader) (rs : Reads)
    → length r.header ≤ 5
    → unread r rs < fuel
    → (t : ReaderRead) × (read_loop proto fuel n r rs ≡ some t)
unfolding read_loop
read_loop_ends proto zero n r rs h less = absurd (omega arith)
read_loop_ends proto (suc fuel) n r rs h less = elim (List-cases r.cache) [
  | inr (x, xs, e) ↦ (from_cache n r rs, ground (arith, e))
  | inl e ↦ elim (Option-cases (read_message proto r rs).error) [
    | inr (x, failed) ↦
        let m = read_message proto r rs in
        (
          failed_read x (if is_interrupt x then m.reader else record (m.reader) { err = some x })
              m.rest,
          ground (arith, e, failed, read_message-ends proto r rs),
        )
    | inl ok ↦
        let m = read_message proto r rs in
        let (a, b) = read_message_size proto r rs h ok in
        let (t, next) =
          read_loop_ends proto fuel n m.reader m.rest (omega (arith, ap length a))
            (omega (arith, b, less)) in
        (t, loop_again proto fuel n r rs t e ok next)
  ]
]

context_ends :
    (proto : Protowire) (fuel n : ℕ) (ctx : Option Error) (r : Reader) (rs : Reads)
    → r.err ≡ none
    → ((t : ReaderRead) × (read_loop proto fuel (suc n) r rs ≡ some t))
    → (t : ReaderRead) × (read_context proto fuel (suc n) ctx r rs ≡ some t)
unfolding read_context
context_ends proto fuel n (some e) r rs ok t = (failed_read e r rs, ground (arith, ok))
context_ends proto fuel n none r rs ok (t, e) = (t, ground (arith, ok, e))

-- readContext comes to an end, with each readMessage and its loop over the fields: whatever a stream holds and however its reads come, a bound above the
-- number of the bytes that the reader has of a message and that are still to come gives a result.
pub read_context_ends :
    (proto : Protowire) (fuel n : ℕ) (ctx : Option Error) (r : Reader) (rs : Reads)
    → length r.header ≤ 5
    → unread r rs < fuel
    → (t : ReaderRead) × (read_context proto fuel n ctx r rs ≡ some t)
unfolding read_context
read_context_ends proto fuel zero ctx r rs h less = (_, refl)
read_context_ends proto fuel (suc n) ctx r rs h less = elim (Option-cases r.err) [
  | inr (x, failed) ↦ (failed_read x r rs, ground (arith, failed))
  | inl ok ↦ context_ends proto fuel n ctx r rs ok (read_loop_ends proto fuel (suc n) r rs h less)
]
