-- ===== src/Codec/Examples.antt =====
-- The theorems on the codec at concrete values, and tests.
use cronet_go.Base.{
  ℕ, suc, ◌≡◌, refl, [], ◌∷◌, none, true, arith, codes, length, pos, negsuc, ◌≤ℤ◌, ◌+ℤ◌, ◌-ℤ◌, List,
  some, ◌++◌, if◌then◌else◌, is_empty,
}
use cronet_go.Paths.{slash}
use cronet_go.Paths.Shape.{IsBase}
use cronet_go.Codec
use cronet_go.Codec.{
  Codec, Range, range, browser_range_rand, get, set, canonical, is_token, header, path, tokenish,
}
use cronet_go.Codec.Padding.{browser_generate_padding, tokenish_from, new_request}
use cronet_go.Codec.Padding.Lengths.{Huffman, Padded, browser_generate_padding-long}
use cronet_go.Codec.Padding.Placing.{new_request-path}
use cronet_go.Codec.Identifiers.{generate_session_id, session_alphabet, session_size, table_named}
use cronet_go.Codec.Identifiers.Shapes.{Named, generate_session_id-Named}
use cronet_go.Codec.Headers.{numbered}
use cronet_go.Codec.Ranges.{browser_range_rand-bounds}
use cronet_go.Codec.Base64.{base64_encode, base64_decode, base64_char}
use cronet_go.Codec.Uplink.{encode_uplink}
use cronet_go.Codec.Uplink.RoundTrip.{received, encode_uplink-received}

encoded : base64_encode (codes "hello") ≡ codes "aGVsbG8"
unfolding base64_encode base64_char
encoded = refl

drawn : browser_range_rand (range 100 1000) 905 ≡ pos 104
unfolding browser_range_rand ◌+ℤ◌ ◌-ℤ◌
drawn = refl

drawn_below_zero :
    (negsuc 1 ≤ℤ browser_range_rand (record { from = negsuc 1; to = pos 3 }) 17)
    × (negsuc 1 ≤ℤ pos 3 → browser_range_rand (record { from = negsuc 1; to = pos 3 }) 17 ≤ℤ pos 3)
drawn_below_zero = browser_range_rand-bounds (record { from = negsuc 1; to = pos 3 }) 17

abbrev in_headers : Codec
in_headers = record {
  base_path = codes "/";
  session_place = header;
  session_key = [];
  seq_place = header;
  seq_key = [];
  xpad_obfs = true;
  xpad_placement = header;
  xpad_key = [];
  xpad_header = [];
  xpad_method = Codec.repeat_x;
  xpad_range = range 0 0;
  uplink_place = header;
  uplink_key = codes "x-up";
  uplink_chunk_size = range 3 5;
  max_each_post_bytes = range 1 1;
  min_posts_interval_ms = range 0 0;
  session_table = [];
  session_length = range 0 0;
}

abbrev draws : ℕ → ℕ
draws i = i

no_headers : (j : ℕ) → get [] (numbered (codes "x-up") b'-' j) ≡ []
unfolding get Codec.lookup
no_headers j = refl

encode_uplink-received_example :
    ((encode_uplink in_headers draws [] (codes "hello")).0 ≡ true)
    × (base64_decode (
          received
            (codes "x-up")
            (suc (length (base64_encode (codes "hello"))))
            0
            (encode_uplink in_headers draws [] (codes "hello")).1)
        ≡ codes "hello")
encode_uplink-received_example =
    encode_uplink-received in_headers draws [] (codes "hello") refl (omega arith) no_headers

abbrev lengths : List ℕ → ℕ
lengths s = length s

five_bits : Huffman lengths
five_bits = record { least = λ s. omega arith }

browser_generate_padding-long_example :
    Padded lengths tokenish 3 (browser_generate_padding lengths (λ n. some n) tokenish 3)
browser_generate_padding-long_example =
    browser_generate_padding-long lengths (λ n. some n) five_bits tokenish 3

padding : browser_generate_padding lengths (λ n. some n) tokenish 3 ≡ codes "012"
unfolding browser_generate_padding tokenish_from
padding = refl

abbrev in_table : Codec
in_table = record in_headers { session_table = codes "hex"; session_length = range 4 4 }

in_hex : generate_session_id in_table 0 (some draws) none ≡ codes "0123"
unfolding generate_session_id session_alphabet session_size table_named
in_hex = refl

generate_session_id-Named_example :
    Named in_table (some draws) (generate_session_id in_table 0 (some draws) none)
generate_session_id-Named_example =
    generate_session_id-Named in_table 0 (some draws) none (omega arith)

abbrev in_path : Codec
in_path = record in_headers { session_place = path; seq_place = path }

slashed : IsBase (codes "/")
slashed = record { begins = refl; ends = refl; no_query = refl }

packet_path :
    (new_request lengths
      (λ n. some n)
      (λ u. u.path)
      0
      in_path
      (record { path = []; query = [] })
      []
      (codes "h")
      (codes "ab")
      (codes "7")).0.path
    ≡ codes "/" ++ codes "ab" ++ (if is_empty (codes "7") then [] else slash ∷ codes "7")
packet_path =
    new_request-path lengths (λ n. some n) (λ u. u.path) 0 in_path
      (record { path = []; query = [] }) [] (codes "h") (codes "ab") (codes "7") refl refl slashed
      refl refl
