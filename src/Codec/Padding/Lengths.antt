-- ===== src/Codec/Padding/Lengths.antt =====
-- The padding is as long as was drawn, and a request's path names its session and its packet.
use cronet_go.Base.{
  ℕ, zero, suc, ◌+◌, ◌*◌, ◌≤◌, ◌≡◌, ◌≢◌, refl, [], ◌∷◌, ◌++◌, Option, arith, if_elim, ltb, length,
  length-append, length-replicate, Text, Bool, true, ◌&&◌, ◌||◌, ◌==◌, ◌%◌, leb, get_elem?,
  replicate, some, none,
}
use cronet_go.Codec.{PaddingMethod, repeat_x, tokenish, default_method, unknown_method}
use cronet_go.Codec.Padding.{padding_char, tokenish_from, browser_generate_padding, base62, byte_or}

-- What is relied on of hpack.HuffmanEncodeLength: the bits of a text in whole bytes, at least five bits for
-- each character.
pub record Huffman (huffman_length : Text → ℕ) : Type 0 where
  pub least : (s : Text) → 5 * length s ≤ 8 * huffman_length s

-- The characters of base 62, told without the table.
abbrev pub is_base62 : ℕ → Bool
is_base62 c = leb b'0' c && leb c b'9' || (leb b'A' c && leb c b'Z' || leb b'a' c && leb c b'z')

unfoldable pub all_base62 : Text → Bool
all_base62 [] = true
all_base62 (c ∷ cs) = is_base62 c && all_base62 cs

unfoldable pub all_x : Text → Bool
all_x [] = true
all_x (c ∷ cs) = (c == b'X') && all_x cs

all_base62-append :
    (out : Text) (c : ℕ)
    → all_base62 out ≡ true
    → is_base62 c ≡ true
    → all_base62 (out ++ (c ∷ [])) ≡ true
unfolding all_base62
all_base62-append [] c h e = ground (arith, e)
all_base62-append (x ∷ xs) c h e = ground (arith, h, all_base62-append xs c (ground (arith, h)) e)

get_elem?-base62 :
    (xs : Text) (i : ℕ) → all_base62 xs ≡ true → is_base62 (byte_or b'X' (get_elem? xs i)) ≡ true
unfolding all_base62
get_elem?-base62 [] i h = refl
get_elem?-base62 (x ∷ xs) zero h = ground (arith, h)
get_elem?-base62 (x ∷ xs) (suc i) h = get_elem?-base62 xs i (ground (arith, h))

padding_char-base62 : (raw : Option ℕ) → is_base62 (padding_char raw) ≡ true
unfolding padding_char all_base62
padding_char-base62 none = refl
padding_char-base62 (some raw) = get_elem?-base62 base62 (raw % 62) refl

all_x-replicate : (n : ℕ) → all_x (replicate n b'X') ≡ true
unfolding all_x
all_x-replicate zero = refl
all_x-replicate (suc n) = ground (arith, all_x-replicate n)

-- What a padding is by its method.
pub record Padded (huffman_length : Text → ℕ) (m : PaddingMethod) (wanted : ℕ) (t : Text)
    : Type 0 where
  pub coded : m ≡ tokenish → wanted ≤ huffman_length t
  pub alphabet : m ≡ tokenish → all_base62 t ≡ true
  pub plain : m ≢ tokenish → (length t ≡ wanted) × (all_x t ≡ true)

xs-Padded :
    {huffman_length : Text → ℕ} (m : PaddingMethod) (wanted : ℕ)
    → m ≢ tokenish
    → Padded huffman_length m wanted (replicate wanted b'X')
xs-Padded m wanted other = record {
  coded = λ e. absurd (other e);
  alphabet = λ e. absurd (other e);
  plain = λ n. (length-replicate wanted b'X', all_x-replicate wanted);
}

module _ (huffman_length : Text → ℕ) (random : ℕ → Option ℕ) (coded : Huffman huffman_length) where
  tokenish_from-long :
      (f : ℕ) (out : Text) (wanted : ℕ)
      → 8 * wanted ≤ 5 * (length out + f)
      → wanted ≤ huffman_length (tokenish_from huffman_length random f out wanted)
  unfolding tokenish_from
  tokenish_from-long zero out wanted h = omega (arith, coded.least out)
  tokenish_from-long (suc f) out wanted h =
      let c = padding_char (random (length out)) in
      if_elim (λ (t : Text). wanted ≤ huffman_length t) (ltb (huffman_length out) wanted) _ out
        (λ short.
          tokenish_from-long f (out ++ (c ∷ [])) wanted (omega (arith, length-append out (c ∷ []))))
        (λ long. ground arith)

  tokenish_from-shape :
      (f : ℕ) (out : Text) (wanted : ℕ)
      → all_base62 out ≡ true
      → all_base62 (tokenish_from huffman_length random f out wanted) ≡ true
  unfolding tokenish_from
  tokenish_from-shape zero out wanted h = h
  tokenish_from-shape (suc f) out wanted h =
      let c = padding_char (random (length out)) in
      if_elim (λ (t : Text). all_base62 t ≡ true) (ltb (huffman_length out) wanted) _ out
        (λ short.
          tokenish_from-shape f (out ++ (c ∷ [])) wanted
            (all_base62-append out c h (padding_char-base62 (random (length out)))))
        (λ long. h)

  -- The padding of a wanted length: for the method tokenish, letters and digits whose coded length is at
  -- least the wanted one, so the loop of the code comes to its end; for any other, as many X.
  pub browser_generate_padding-long :
      (m : PaddingMethod) (wanted : ℕ)
      → Padded huffman_length m wanted (browser_generate_padding huffman_length random m wanted)
  unfolding browser_generate_padding
  browser_generate_padding-long tokenish wanted = record {
    coded = λ e. tokenish_from-long (2 * wanted) [] wanted (omega arith);
    alphabet = λ e. tokenish_from-shape (2 * wanted) [] wanted (unfold all_base62 in refl);
    plain = λ n. absurd (n refl);
  }
  browser_generate_padding-long repeat_x wanted = xs-Padded repeat_x wanted (λ e. cc e)
  browser_generate_padding-long default_method wanted = xs-Padded default_method wanted (λ e. cc e)
  browser_generate_padding-long (unknown_method t) wanted =
      xs-Padded (unknown_method t) wanted (λ e. cc e)
