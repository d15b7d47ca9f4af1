-- ===== src/Codec/Padding/Placing.antt =====
-- newRequest: the path of a request.
use cronet_go.Base.{
  ℕ, ◌≡◌, refl, sym, ◌∙◌, [], ◌∷◌, ◌++◌, Option, true, false, arith, if◌then◌else◌, Text, is_empty,
  has_suffix, append-nil,
}
use cronet_go.Paths.{slash, browser_append_path}
use cronet_go.Paths.Shape.{IsBase}
use cronet_go.Codec.{
  Codec, Url, Header, Place, path, apply_meta, apply_unless_empty, browser_apply_field,
}
use cronet_go.Codec.Padding.{with_query, place_padding, apply_padding, new_request}

has_suffix-append :
    (p q : Text) → is_empty q ≡ false → has_suffix slash (p ++ q) ≡ has_suffix slash q
has_suffix-append [] q h = refl
has_suffix-append (c ∷ []) [] h = cc h
has_suffix-append (c ∷ []) (d ∷ q) h = refl
has_suffix-append (c ∷ d ∷ p) q h = has_suffix-append (d ∷ p) q h

field-path :
    (u : Url) (h : Header) (p : Place) (key value : Text)
    → p ≡ path
    → (apply_unless_empty (u, h) p key value).0.path
      ≡ (if is_empty value then u.path else browser_append_path u.path value)
unfolding apply_unless_empty browser_apply_field
field-path u h p key [] e = refl
field-path u h p key (v ∷ vs) e = rw (e, browser_apply_field) refl

number-path :
    (t front seq : Text)
    → t ≡ front
    → has_suffix slash front ≡ false
    → (if is_empty seq then t else browser_append_path t seq)
      ≡ front ++ (if is_empty seq then [] else slash ∷ seq)
unfolding browser_append_path
number-path t front [] e h = e ∙ sym (append-nil front)
number-path t front (c ∷ cs) e h = rw (e, h) refl

-- The fields in the path.
apply_meta-path :
    (c : Codec) (u : Url) (h : Header) (session_id seq : Text)
    → c.session_place ≡ path
    → c.seq_place ≡ path
    → has_suffix slash u.path ≡ true
    → is_empty session_id ≡ false
    → has_suffix slash session_id ≡ false
    → (apply_meta c u h session_id seq).0.path
      ≡ u.path ++ session_id ++ (if is_empty seq then [] else slash ∷ seq)
unfolding apply_meta browser_append_path
apply_meta-path c u h session_id seq es eq b filled ends =
    let first = apply_unless_empty (u, h) c.session_place c.session_key session_id in
    let named : first.0.path ≡ u.path ++ session_id =
      field-path u h c.session_place c.session_key session_id es ∙ ground arith in
    let kept : has_suffix slash (u.path ++ session_id) ≡ false =
      has_suffix-append u.path session_id filled ∙ ends in
    field-path first.0 first.1 c.seq_place c.seq_key seq eq
    ∙ number-path first.0.path (u.path ++ session_id) seq named kept

module _ (huffman_length : Text → ℕ) (random : ℕ → Option ℕ) (print : Url → Text) where
  place_padding-path :
      (c : Codec) (u : Url) (h : Header) (v : Text) (p : Place)
      → (place_padding huffman_length random print c u h v p).0.path ≡ u.path
  unfolding place_padding with_query
  place_padding-path c u h v p = ground arith

  apply_padding-path :
      (raw : ℕ) (c : Codec) (u : Url) (h : Header)
      → (apply_padding huffman_length random print raw c u h).0.path ≡ u.path
  unfolding apply_padding
  apply_padding-path raw c u h = ground (arith, place_padding-path c u h _ c.xpad_placement)

  -- Where session and sequence go into the path, a request's path is the base path, the session's
  -- identifier and, for a packet, a slash and its number: the padding, wherever it is placed, leaves the
  -- path alone.
  pub new_request-path :
      (raw : ℕ) (c : Codec) (base : Url) (h : Header) (host session_id seq : Text)
      → c.session_place ≡ path
      → c.seq_place ≡ path
      → IsBase c.base_path
      → is_empty session_id ≡ false
      → has_suffix slash session_id ≡ false
      → (new_request huffman_length random print raw c base h host session_id seq).0.path
        ≡ c.base_path ++ session_id ++ (if is_empty seq then [] else slash ∷ seq)
  unfolding new_request
  new_request-path raw c base h host session_id seq es eq b filled ends =
      apply_padding-path raw c _ _
      ∙ apply_meta-path c (record { path = c.base_path; query = base.query }) _ session_id seq es eq
          b.ends filled ends
