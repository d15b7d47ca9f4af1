-- ===== src/Codec/Uplink.antt =====
-- encodeUplink: the payload of a packet in numbered headers or cookies.
pub mod RoundTrip
use cronet_go.Base.{
  ℕ, zero, suc, ◌+◌, List, [], ◌∷◌, ◌++◌, Bool, true, false, if◌then◌else◌, length, take, drop, min,
  Text, is_empty, decimal, pos, pos_part, le_int,
}
use cronet_go.Codec.{
  Codec, Range, Header, Place, header, cookie, set, browser_add_cookie, browser_range_rand,
}
use cronet_go.Codec.Base64.{base64_encode}

-- The number of characters for a round, of `left` that are there.
unfoldable pub chunk_size : Range → ℕ → ℕ → ℕ
chunk_size r raw left =
    let chunk = browser_range_rand r raw in
    min (if le_int chunk (pos 0) then left else pos_part chunk) left

unfoldable pub place_chunk : Place → Text → ℕ → Text → Header → Header
place_chunk header key i chunk h = set h (key ++ b'-' ∷ decimal i) chunk
place_chunk place key i chunk h = browser_add_cookie h (key ++ b'_' ∷ decimal i) chunk

-- The loop, with fuel for its rounds; `random i` is the word that round `i` draws.
unfoldable pub encode_rounds : Codec → (ℕ → ℕ) → ℕ → ℕ → Text → Header → Header
unfolding chunk_size place_chunk
encode_rounds c random zero i encoded h = h
encode_rounds c random (suc f) i encoded h =
    let n = chunk_size c.uplink_chunk_size (random i) (length encoded) in
    let rest =
      encode_rounds c random f (i + 1) (drop n encoded)
        (place_chunk c.uplink_place c.uplink_key i (take n encoded) h) in
    if is_empty encoded then h else rest

with_chunks : Place → Header → Header → Bool × Header
with_chunks header h filled = (true, filled)
with_chunks cookie h filled = (true, filled)
with_chunks place h filled = (false, h)

-- A round takes at least one character, so the length of the text is fuel enough.
unfoldable pub encode_uplink : Codec → (ℕ → ℕ) → Header → List ℕ → Bool × Header
unfolding encode_rounds with_chunks
encode_uplink c random h payload =
    let encoded = base64_encode payload in
    with_chunks c.uplink_place h (encode_rounds c random (length encoded) 0 encoded h)
