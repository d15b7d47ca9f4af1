-- ===== src/Grpc/Uploading.antt =====
-- An upload hands out its messages whole and in order, whatever slices it is read with.
use cronet_go.Base.{
  ℕ, zero, suc, ◌≡◌, ◌≤◌, refl, sym, ap, subst, ◌∙◌, List, [], ◌∷◌, ◌++◌, append_assoc, append-nil,
  take-append-drop, length-take, Option, none, some, length, take, drop, arith, Error, Option-cases,
  inl, inr,
}
use cronet_go.Grpc.{
  Protowire, encode, Reads, Upload, UploadRead, hand_out, next_read, refill, upload_read,
}

-- The messages that a source still makes: one for each read with bytes, up to the first error.
pub messages : Protowire → Reads → List ℕ
messages proto [] = []
messages proto (([], none) ∷ rs) = messages proto rs
messages proto (([], some e) ∷ rs) = []
messages proto ((x ∷ bytes, none) ∷ rs) = encode proto (x ∷ bytes) ++ messages proto rs
messages proto ((x ∷ bytes, some e) ∷ rs) = encode proto (x ∷ bytes)

abbrev after_error : Protowire → Option Error → Reads → List ℕ
after_error proto none rs = messages proto rs
after_error proto (some e) rs = []

abbrev pub outgoing : Protowire → Upload → List ℕ
outgoing proto u = u.pending ++ after_error proto u.err u.source

pub record Conserves (proto : Protowire) (n : ℕ) (all : List ℕ) (t : UploadRead) : Type 0 where
  pub order : t.bytes ++ outgoing proto t.upload ≡ all
  pub size : length t.bytes ≤ n

hand_out-Conserves :
    (proto : Protowire) (n : ℕ) (u : Upload)
    → Conserves proto n (outgoing proto u) (record {
      bytes = take n u.pending;
      error = none;
      upload = record u { pending = drop n u.pending };
    })
hand_out-Conserves proto n u = record {
  order =
      sym (append_assoc (take n u.pending) (drop n u.pending) _)
      ∙ ap (λ (t : List ℕ). t ++ after_error proto u.err u.source) (take-append-drop n u.pending);
  size = omega (arith, length-take n u.pending);
}

refill-Conserves :
    (proto : Protowire) (n : ℕ) (rs : Reads)
    → Conserves proto n (messages proto rs) (refill proto n (next_read rs))
unfolding refill messages
refill-Conserves proto n [] = record { order = refl; size = omega arith }
refill-Conserves proto n (([], none) ∷ rs) = record { order = refl; size = omega arith }
refill-Conserves proto n (([], some e) ∷ rs) = record { order = refl; size = omega arith }
refill-Conserves proto n ((x ∷ bytes, none) ∷ rs) =
    hand_out-Conserves proto n
      (record { source = rs; pending = encode proto (x ∷ bytes); err = none })
refill-Conserves proto n ((x ∷ bytes, some e) ∷ rs) =
    let v =
      hand_out-Conserves proto n
        (record { source = rs; pending = encode proto (x ∷ bytes); err = some e }) in
    record { order = v.order ∙ append-nil (encode proto (x ∷ bytes)); size = v.size }

upload_read-Conserves_at :
    (proto : Protowire) (n : ℕ) (u : Upload) (pending : List ℕ)
    → u.pending ≡ pending
    → Conserves proto n (outgoing proto u) (upload_read proto n u)
unfolding upload_read
upload_read-Conserves_at proto zero u p e = record { order = refl; size = omega arith }
upload_read-Conserves_at proto (suc n) u (x ∷ xs) e =
    let same : upload_read proto (suc n) u ≡ hand_out (suc n) u = ground arith in
    subst (Conserves proto (suc n) (outgoing proto u)) (sym same)
      (hand_out-Conserves proto (suc n) u)
upload_read-Conserves_at proto (suc n) u [] e = elim (Option-cases u.err) [
  | inr (x, failed) ↦
      let same : upload_read proto (suc n) u ≡ record { bytes = []; error = some x; upload = u } =
        ground arith in
      subst (Conserves proto (suc n) (outgoing proto u)) (sym same)
        (record { order = refl; size = omega arith })
  | inl live ↦
      let same : upload_read proto (suc n) u ≡ refill proto (suc n) (next_read u.source) =
        rw (e, upload_read) (rw live refl) in
      let all : outgoing proto u ≡ messages proto u.source =
        ap (λ (t : List ℕ). t ++ after_error proto u.err u.source) e
        ∙ ap (λ (o : Option Error). after_error proto o u.source) live in
      subst (λ (t : UploadRead). Conserves proto (suc n) (outgoing proto u) t) (sym same)
        (subst
          (λ (m : List ℕ). Conserves proto (suc n) m (refill proto (suc n) (next_read u.source)))
          (sym all) (refill-Conserves proto (suc n) u.source))
]

-- A Read of an upload hands out at most what its slice holds, and these bytes are the front of the
-- messages that the upload has still to send: what is pending, and then one message for each read of
-- the source with bytes, up to and including the first read with an error.
pub upload_read-Conserves :
    (proto : Protowire) (n : ℕ) (u : Upload)
    → Conserves proto n (outgoing proto u) (upload_read proto n u)
upload_read-Conserves proto n u = upload_read-Conserves_at proto n u u.pending refl
