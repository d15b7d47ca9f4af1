-- ===== src/Codec/Padding.antt =====
-- browserGeneratePadding, applyPadding and newRequest: what a request carries beside its fields. The print
-- of a URL and the length that Huffman coding of HPACK gives a text are parameters.
pub mod Lengths
pub mod Placing
use cronet_go.Base.{
  ℕ, zero, suc, ◌+◌, ◌*◌, ◌%◌, List, [], ◌∷◌, ◌++◌, Option, none, some, Bool, true, false,
  if◌then◌else◌, ltb, ◌==◌, length, replicate, get_elem?, Text, codes, is_empty, pos_part,
}
use cronet_go.Codec.{
  Codec, Url, Header, Place, header, query, cookie, query_in_header, PaddingMethod, repeat_x,
  tokenish, set, set_query, browser_add_cookie, browser_range_rand, apply_meta,
}

abbrev pub base62 : Text
base62 = codes "0123456789ABCDEFGHIJKLMNOPQRSTUVWXYZabcdefghijklmnopqrstuvwxyz"

-- table[i%len(table)], and the 'X' of a failed random read.
abbrev pub byte_or : ℕ → Option ℕ → ℕ
byte_or d none = d
byte_or d (some c) = c

padding_char : Option ℕ → ℕ
padding_char none = b'X'
padding_char (some raw) = byte_or b'X' (get_elem? base62 (raw % 62))

-- The random bytes: `random n` is what the n-th read gives, or `none` for an error.
module _ (huffman_length : Text → ℕ) (random : ℕ → Option ℕ) where
  -- The loop, with fuel for the characters that are added.
  unfoldable pub tokenish_from : ℕ → Text → ℕ → Text
  unfolding padding_char
  tokenish_from zero out wanted = out
  tokenish_from (suc f) out wanted =
      let longer = tokenish_from f (out ++ (padding_char (random (length out)) ∷ [])) wanted in
      if ltb (huffman_length out) wanted then longer else out

  -- A character has at least five bits, so two for each wanted byte are enough.
  unfoldable pub browser_generate_padding : PaddingMethod → ℕ → Text
  browser_generate_padding tokenish wanted = tokenish_from (2 * wanted) [] wanted
  browser_generate_padding method wanted = replicate wanted b'X'

  module _ (print : Url → Text) where
    with_query : Url → Text → Text → Url
    with_query u key value = record { path = u.path; query = set_query key value u.query }

    -- The obfuscated placements.
    place_padding : Codec → Url → Header → Text → Place → Url × Header
    place_padding c u h v header = (u, set h c.xpad_header v)
    place_padding c u h v query = (with_query u c.xpad_key v, h)
    place_padding c u h v cookie = (u, browser_add_cookie h c.xpad_key v)
    place_padding c u h v query_in_header =
        (u, set h c.xpad_header (print (with_query u c.xpad_key v)))
    place_padding c u h v place = (u, h)

    unfoldable pub apply_padding : ℕ → Codec → Url → Header → Url × Header
    unfolding with_query place_padding
    apply_padding raw c u h =
        let n = pos_part (browser_range_rand c.xpad_range raw) in
        let plain =
          print (with_query u (codes "x_padding") (browser_generate_padding repeat_x n)) in
        let v = browser_generate_padding c.xpad_method n in
        if n == 0
        then (u, h)
        else (if c.xpad_obfs
            then place_padding c u h v c.xpad_placement
            else (u, set h (codes "Referer") plain))

    -- newRequest, up to the print of its URL: the base path, the query and the headers of the options,
    -- the host, the session and the sequence, and the padding.
    unfoldable pub new_request : ℕ → Codec → Url → Header → Text → Text → Text → Url × Header
    unfolding apply_padding
    new_request raw c base headers host session_id seq =
        let h = if is_empty host then headers else set headers (codes "Host") host in
        let (u, g) =
          apply_meta c (record { path = c.base_path; query = base.query }) h session_id seq in
        apply_padding raw c u g
