-- ===== src/Grpc/Resuming.antt =====
-- A reader that an error stops, at any byte, goes on where it was.
use cronet_go.Base.{
  ℕ, ◌+◌, ◌/◌, ◌%◌, ◌≡◌, ◌≤◌, ◌<◌, ◌⊎◌, refl, sym, ap, ◌∙◌, List, [], ◌∷◌, ◌++◌, append_assoc,
  append_same, length-append, Option, none, some, true, false, ltb, ge→ltb, length, arith, Error,
  Option-cases, inl, inr,
}
use cronet_go.Grpc.{
  Protowire, streaming_read_buffer_size, browser_max_grpc_message, encode, consume_fields, Reads,
  arriving, Reader, fill, Filled, MessageRead, inside, inside_message, decode, read_body,
  read_sized, read_message,
}
use cronet_go.Grpc.Filling.{fill-Fills, fill_full}
use cronet_go.Grpc.Messages.{body, body_size, consume_fields-body, encode_lem}

-- What has come of a message and what is still to come are that message and what follows it.
pub record Partial (proto : Protowire) (bytes rest : List ℕ) (r : Reader) (rs : Reads)
    : Type 0 where
  pub on_wire : r.header ++ (r.frame ++ arriving rs) ≡ encode proto bytes ++ rest
  pub header_size : length r.header ≤ 5
  pub header_first : (r.frame ≡ []) ⊎ (length r.header ≡ 5)
  pub frame_size : length r.frame ≤ length (body proto bytes)

-- The message is not complete, and nothing of it is lost.
pub record Stopped (proto : Protowire) (bytes rest cache : List ℕ) (kept : Option Error)
    (m : MessageRead) : Type 0 where
  pub partial : Partial proto bytes rest m.reader m.rest
  pub incomplete : length m.reader.header + length m.reader.frame < length (encode proto bytes)
  pub same_cache : m.reader.cache ≡ cache
  pub same_err : m.reader.err ≡ kept

-- The message is the next to be handed out, and the reader is at what follows.
pub record Complete (bytes rest : List ℕ) (kept : Option Error) (m : MessageRead) : Type 0 where
  pub decoded : m.reader.cache ≡ bytes
  pub no_header : m.reader.header ≡ []
  pub no_frame : m.reader.frame ≡ []
  pub follows : arriving m.rest ≡ rest
  pub same_err : m.reader.err ≡ kept

abbrev pub Resumes : Protowire → List ℕ → List ℕ → Reader → MessageRead → Type 0
Resumes proto bytes rest r m =
    ((e : Error) × (m.error ≡ some e) × Stopped proto bytes rest r.cache r.err m)
    ⊎ ((m.error ≡ none) × Complete bytes rest r.err m)

module _ (proto : Protowire) (bytes rest : List ℕ)
    (small : length bytes ≤ streaming_read_buffer_size) where
  -- The message has come whole.
  decode-Complete :
      (r : Reader) (rs : Reads)
      → r.frame ≡ body proto bytes
      → arriving rs ≡ rest
      → (decode proto r rs).error ≡ none × Complete bytes rest r.err (decode proto r rs)
  unfolding decode
  decode-Complete r rs e f =
      let t =
        ap (λ (m : List ℕ). consume_fields proto (length m) [] m) e
        ∙ consume_fields-body proto bytes in
      rw (t, decode)
        (
          refl,
          record {
            decoded = refl;
            no_header = refl;
            no_frame = refl;
            follows = f;
            same_err = refl;
          },
        )

  read_body-Resumes :
      (r : Reader) (rs : Reads)
      → length r.header ≡ 5
      → r.header ++ body proto bytes ≡ encode proto bytes
      → r.frame ++ arriving rs ≡ body proto bytes ++ rest
      → length r.frame ≤ length (body proto bytes)
      → Resumes proto bytes rest r (read_body proto (length (body proto bytes)) r rs)
  unfolding read_body
  read_body-Resumes r rs five e on_wire size =
      let n = length (body proto bytes) in
      let f = fill n r.frame rs in
      let v = fill-Fills n r.frame rs size in
      elim (Option-cases f.error) [
        | inr (x, failed) ↦
            rw (failed, read_body)
              (inl (
                inside_message x,
                refl,
                record {
                  partial = record {
                    on_wire =
                        ap (◌++◌ r.header) (v.conserved ∙ on_wire)
                        ∙ sym (append_assoc r.header (body proto bytes) rest)
                        ∙ ap (λ (t : List ℕ). t ++ rest) e;
                    header_size = omega (arith, five);
                    header_first = inr five;
                    frame_size = v.bounded;
                  };
                  incomplete = omega (
                    arith,
                    v.short x failed,
                    ap length e,
                    length-append r.header (body proto bytes),
                    five,
                  );
                  same_cache = refl;
                  same_err = refl;
                },
              ))
        | inl ok ↦
            let (whole, next) =
              append_same f.have (arriving f.rest) (body proto bytes) rest (v.conserved ∙ on_wire)
                (v.full ok) in
            rw (ok, read_body)
              (inr (decode-Complete (record r { frame = f.have }) f.rest whole next))
      ]

  -- The five bytes of the header have come.
  read_sized-Resumes :
      (have : List ℕ) (r : Reader) (rs : Reads)
      → r.header ≡ have
      → length have ≡ 5
      → have ++ (r.frame ++ arriving rs) ≡ encode proto bytes ++ rest
      → length r.frame ≤ length (body proto bytes)
      → Resumes proto bytes rest r (read_sized proto have r rs)
  unfolding read_sized
  read_sized-Resumes have r rs e five on_wire size =
      let n = length (body proto bytes) in
      let (bytes_are, size_is) = encode_lem proto bytes small in
      let (_, bound) = body_size proto bytes small in
      let header = 0 ∷ n / 16777216 % 256 ∷ n / 65536 % 256 ∷ n / 256 % 256 ∷ n % 256 ∷ [] in
      let (header_is, next) =
        append_same have (r.frame ++ arriving rs) header (body proto bytes ++ rest)
          (on_wire ∙ ap (λ (t : List ℕ). t ++ rest) bytes_are) (omega (arith, five)) in
      let fits : ltb browser_max_grpc_message n ≡ false = ge→ltb _ _ bound in
      rw (header_is, read_sized)
        (rw size_is (
          rw fits (
            read_body-Resumes r rs (omega (arith, five, ap length e))
              (ap (λ (t : List ℕ). t ++ body proto bytes) (e ∙ header_is) ∙ sym bytes_are) next
              size)))

  -- The header that fill has got, with the rest, is what was there.
  header_on_wire :
      (r : Reader) (rs : Reads)
      → Partial proto bytes rest r rs
      → let f = fill 5 r.header rs in
        f.have ++ (r.frame ++ arriving f.rest) ≡ encode proto bytes ++ rest
  header_on_wire r rs p =
      let f = fill 5 r.header rs in
      let v = fill-Fills 5 r.header rs p.header_size in
      elim p.header_first [
        | inl nothing ↦
            ap (λ (t : List ℕ). f.have ++ (t ++ arriving f.rest)) nothing
            ∙ v.conserved
            ∙ ap (λ (t : List ℕ). r.header ++ (t ++ arriving rs)) (sym nothing)
            ∙ p.on_wire
        | inr five ↦
            ap (λ (g : Filled). g.have ++ (r.frame ++ arriving g.rest))
              (fill_full 5 r.header rs five)
            ∙ p.on_wire
      ]

  header-Stopped :
      (r : Reader) (rs : Reads) (x : Error)
      → Partial proto bytes rest r rs
      → let f = fill 5 r.header rs in
        f.error ≡ some x
        → Stopped proto bytes rest r.cache r.err (record {
          finished = true;
          reader = record r { header = f.have };
          error = some (inside f.have x);
          rest = f.rest;
        })
  header-Stopped r rs x p failed =
      let f = fill 5 r.header rs in
      let v = fill-Fills 5 r.header rs p.header_size in
      let less = v.short x failed in
      let nothing : r.frame ≡ [] = elim p.header_first [
        | inl nothing ↦ nothing
        | inr five ↦ absurd (omega (arith, less, v.grows, five))
      ] in
      record {
        partial = record {
          on_wire = header_on_wire r rs p;
          header_size = v.bounded;
          header_first = inl nothing;
          frame_size = p.frame_size;
        };
        incomplete =
            omega (arith, less, ap length nothing, ap length (encode_lem proto bytes small).0);
        same_cache = refl;
        same_err = refl;
      }

  -- A message may come in any pieces, with errors between them. readMessage either stops before its last
  -- byte, keeping all that has come for the next call and handing out nothing, or hands out exactly the
  -- message's bytes and is at the first byte after it.
  pub read_message-Resumes :
      (r : Reader) (rs : Reads)
      → Partial proto bytes rest r rs
      → Resumes proto bytes rest r (read_message proto r rs)
  unfolding read_message
  read_message-Resumes r rs p =
      let f = fill 5 r.header rs in
      let v = fill-Fills 5 r.header rs p.header_size in
      elim (Option-cases f.error) [
        | inr (x, failed) ↦
            rw (failed, read_message) (inl (inside f.have x, refl, header-Stopped r rs x p failed))
        | inl ok ↦
            rw (ok, read_message)
              (read_sized-Resumes f.have (record r { header = f.have }) f.rest refl (v.full ok)
                (header_on_wire r rs p) p.frame_size)
      ]
