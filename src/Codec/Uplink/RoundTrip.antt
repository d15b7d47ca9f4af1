-- ===== src/Codec/Uplink/RoundTrip.antt =====
-- A receiver that joins the numbered headers gets the payload of a packet.
use cronet_go.Base.{
  ℕ, zero, suc, ◌+◌, ◌≤◌, ◌<◌, ◌≡◌, ◌≢◌, refl, ap, ◌∙◌, List, [], ◌∷◌, ◌++◌, true, false, arith,
  if◌then◌else◌, length, take, drop, Text, is_empty, length-drop, All, IsByte, take-append-drop,
}
use cronet_go.Codec.{Codec, Range, Header, Place, header, get, set}
use cronet_go.Codec.Headers.{numbered, canonical-numbered, get-set_self, get-set_ne}
use cronet_go.Codec.Base64.{base64_encode, base64_decode, base64_decode-encode}
use cronet_go.Codec.Uplink.{chunk_size, place_chunk, encode_rounds, with_chunks, encode_uplink}

-- The values of the headers numbered from `i` on, up to the first that is not there.
unfoldable pub received : Text → ℕ → ℕ → Header → Text
received key zero i h = []
received key (suc f) i h =
    let chunk = get h (numbered key b'-' i) in
    let rest = received key f (i + 1) h in if is_empty chunk then [] else chunk ++ rest

chunk_size-bounds :
    (r : Range) (raw left : ℕ)
    → 0 < left
    → (0 < chunk_size r raw left) × (chunk_size r raw left ≤ left)
unfolding chunk_size
chunk_size-bounds r raw left h = ground arith

get-chunk_other :
    (h : Header) (key v : Text) (i j : ℕ)
    → i ≢ j
    → get (set h (numbered key b'-' i) v) (numbered key b'-' j) ≡ get h (numbered key b'-' j)
get-chunk_other h key v i j n =
    get-set_ne h (numbered key b'-' i) (numbered key b'-' j) v
      (λ e. n (canonical-numbered key i j e))

place_chunk-header :
    (p : Place) (key : Text) (i : ℕ) (v : Text) (h : Header)
    → p ≡ header
    → place_chunk p key i v h ≡ set h (numbered key b'-' i) v
unfolding place_chunk
place_chunk-header p key i v h e = rw e refl

received_step :
    (key : Text) (f i : ℕ) (h : Header) (chunk rest : Text)
    → get h (numbered key b'-' i) ≡ chunk
    → is_empty chunk ≡ false
    → received key f (i + 1) h ≡ rest
    → received key (suc f) i h ≡ chunk ++ rest
unfolding received
received_step key f i h chunk rest e filled r = rw (e, filled, r) refl

received_nothing :
    (key : Text) (f i : ℕ) (h : Header)
    → get h (numbered key b'-' i) ≡ []
    → received key (suc f) i h ≡ []
unfolding received
received_nothing key f i h e = rw e refl

take-filled : (n : ℕ) (x : ℕ) (xs : Text) → 0 < n → is_empty (take n (x ∷ xs)) ≡ false
take-filled zero x xs h = absurd (omega arith)
take-filled (suc n) x xs h = refl

module _ (c : Codec) (random : ℕ → ℕ) (at_header : c.uplink_place ≡ header) where
  -- Rounds leave the headers with smaller numbers alone.
  encode_rounds-below :
      (f i : ℕ) (encoded : Text) (h : Header) (j : ℕ)
      → j < i
      → get (encode_rounds c random f i encoded h) (numbered c.uplink_key b'-' j)
        ≡ get h (numbered c.uplink_key b'-' j)
  unfolding encode_rounds
  encode_rounds-below zero i encoded h j lt = refl
  encode_rounds-below (suc f) i [] h j lt = refl
  encode_rounds-below (suc f) i (x ∷ xs) h j lt =
      let n = chunk_size c.uplink_chunk_size (random i) (suc (length xs)) in
      let chunk = take n (x ∷ xs) in
      encode_rounds-below f (i + 1) (drop n (x ∷ xs)) _ j (omega arith)
      ∙ ap (λ (g : Header). get g (numbered c.uplink_key b'-' j))
          (place_chunk-header c.uplink_place c.uplink_key i chunk h at_header)
      ∙ get-chunk_other h c.uplink_key chunk i j (λ e. omega (arith, e))

  received-encode_rounds :
      (f i : ℕ) (encoded : Text) (h : Header)
      → length encoded ≤ f
      → ((j : ℕ) → i ≤ j → get h (numbered c.uplink_key b'-' j) ≡ [])
      → received c.uplink_key (suc f) i (encode_rounds c random f i encoded h) ≡ encoded
  unfolding encode_rounds
  received-encode_rounds zero i [] h fits free = received_nothing _ 0 i h (free i (omega arith))
  received-encode_rounds zero i (x ∷ xs) h fits free = absurd (omega arith)
  received-encode_rounds (suc f) i [] h fits free =
      received_nothing _ (suc f) i h (free i (omega arith))
  received-encode_rounds (suc f) i (x ∷ xs) h fits free =
      received_step key (suc f) i _ (take n (x ∷ xs)) (drop n (x ∷ xs))
        (encode_rounds-below f (i + 1) (drop n (x ∷ xs)) placed i (omega arith) ∙ found)
        (take-filled n x xs (bounds.0))
        (received-encode_rounds f (i + 1) (drop n (x ∷ xs)) placed
          (omega (arith, length-drop n (x ∷ xs), bounds))
          (λ (j : ℕ) (le : i + 1 ≤ j). others j le ∙ free j (omega arith)))
      ∙ take-append-drop n (x ∷ xs)
    where
      key : Text
      key = c.uplink_key

      n : ℕ
      n = chunk_size c.uplink_chunk_size (random i) (suc (length xs))

      bounds : (0 < n) × (n ≤ suc (length xs))
      bounds = chunk_size-bounds c.uplink_chunk_size (random i) (suc (length xs)) (omega arith)

      placed : Header
      placed = place_chunk c.uplink_place key i (take n (x ∷ xs)) h

      as_set : placed ≡ set h (numbered key b'-' i) (take n (x ∷ xs))
      as_set = place_chunk-header c.uplink_place key i (take n (x ∷ xs)) h at_header

      found : get placed (numbered key b'-' i) ≡ take n (x ∷ xs)
      found =
          ap (λ (g : Header). get g (numbered key b'-' i)) as_set
          ∙ get-set_self h (numbered key b'-' i) (take n (x ∷ xs))

      others : (j : ℕ) → i + 1 ≤ j → get placed (numbered key b'-' j) ≡ get h (numbered key b'-' j)
      others j le =
          ap (λ (g : Header). get g (numbered key b'-' j)) as_set
          ∙ get-chunk_other h key (take n (x ∷ xs)) i j (λ e. omega (arith, e))

with_chunks-header : (p : Place) (h g : Header) → p ≡ header → with_chunks p h g ≡ (true, g)
unfolding with_chunks
with_chunks-header p h g e = rw e refl

-- For an upload placed in headers, encodeUplink tells its caller that the payload is placed, and a
-- receiver that joins the headers numbered from 0, up to the first that is missing, and decodes them
-- has the payload, whatever chunks were drawn and whatever else was in the header, as long as it had no
-- value at these names before.
pub encode_uplink-received :
    (c : Codec) (random : ℕ → ℕ) (h : Header) (payload : List ℕ)
    → c.uplink_place ≡ header
    → All IsByte payload
    → ((j : ℕ) → get h (numbered c.uplink_key b'-' j) ≡ [])
    → ((encode_uplink c random h payload).0 ≡ true)
      × (base64_decode (
            received c.uplink_key
              (suc (length (base64_encode payload)))
              0
              (encode_uplink c random h payload).1)
          ≡ payload)
unfolding encode_uplink
encode_uplink-received c random h payload at_header bytes free =
    rw
      (with_chunks-header c.uplink_place h
        (encode_rounds c random (length (base64_encode payload)) 0 (base64_encode payload) h)
        at_header)
      (
        refl,
        rw
            (received-encode_rounds c random at_header (length (base64_encode payload)) 0
              (base64_encode payload) h (omega arith) (λ (j : ℕ) (le : 0 ≤ j). free j))
            (base64_decode-encode payload bytes),
      )
