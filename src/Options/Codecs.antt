-- ===== src/Options/Codecs.antt =====
-- The codec that is made from accepted options: newBrowserXHTTPCodec after validateBrowserOptions.
use cronet_go.Base.{
  ◌≡◌, ◌≢◌, refl, ◌⊎◌, [], ◌∷◌, none, true, arith, if◌then◌else◌, Text, codes, pos, ◌≤ℤ◌, max_int,
}
use cronet_go.Paths.Shape.{IsBase, normalize_browser_path-IsBase}
use cronet_go.Codec.{
  Codec, Place, unset, path, query, header, cookie, query_in_header, body, auto, unknown_place,
  PaddingMethod, default_method, repeat_x, tokenish, unknown_method, Range, range,
  default_browser_range, or_place, or_text, or_method, browser_default_key, lower_name,
  chunk_default, chunk_range, is_zero, new_browser_xhttp_codec,
}
use cronet_go.Codec
use cronet_go.Options.{BrowserOptions, validate_browser_options}
use cronet_go.Options.Accepted.{IsRange, IsFieldPlace, IsPadding, validate_browser_options_accepts}

-- A field goes into the path, or under a key that is not empty.
abbrev pub HasPlace : Place → Text → Type 0
HasPlace place key =
    (place ≡ path) ⊎ (((place ≡ query) ⊎ (place ≡ header) ⊎ (place ≡ cookie)) × (key ≢ []))

abbrev pub HasUplink : Place → Text → Type 0
HasUplink place key =
    (place ≡ body) ⊎ (place ≡ auto) ⊎ (((place ≡ header) ⊎ (place ≡ cookie)) × (key ≢ []))

abbrev pub HasPadding : Codec → Type 0
HasPadding c =
    ((c.xpad_placement ≡ header)
      ⊎ (c.xpad_placement ≡ query)
      ⊎ (c.xpad_placement ≡ cookie)
      ⊎ (c.xpad_placement ≡ query_in_header))
    × ((c.xpad_method ≡ repeat_x) ⊎ (c.xpad_method ≡ tokenish))
    × (c.xpad_key ≢ [])
    × (c.xpad_header ≢ [])

-- A codec that can place what it must.
pub record Complete (c : Codec) : Type 0 where
  pub base : IsBase c.base_path
  pub session : HasPlace c.session_place c.session_key
  pub seq : HasPlace c.seq_place c.seq_key
  pub uplink : HasUplink c.uplink_place c.uplink_key
  pub padding : c.xpad_obfs ≡ true → HasPadding c
  pub chunk_least : pos 64 ≤ℤ c.uplink_chunk_size.from
  pub chunk_order : c.uplink_chunk_size.from ≤ℤ c.uplink_chunk_size.to
  pub xpad_range : IsRange c.xpad_range
  pub max_each_post_bytes : IsRange c.max_each_post_bytes
  pub min_posts_interval_ms : IsRange c.min_posts_interval_ms
  pub session_length : IsRange c.session_length

default_range-IsRange : (v d : Range) → IsRange v → IsRange d → IsRange (default_browser_range v d)
default_range-IsRange v d hv hd = ground arith

or_text-ne-nil : (t d : Text) → d ≢ [] → or_text t d ≢ []
or_text-ne-nil [] d h = h
or_text-ne-nil (c ∷ cs) d h = λ e. cc e

place-kept :
    (p : Place) (k name : Text)
    → IsFieldPlace p
    → name ≢ []
    → HasPlace (or_place p path) (or_text k (browser_default_key (or_place p path) name))
unfolding browser_default_key
place-kept p k [] h n = absurd (n refl)
place-kept p k (c ∷ cs) h n = ground arith

chunks-order :
    (p : Place) (given posts : Range)
    → (pos 64 ≤ℤ (chunk_range p given posts).from)
      × ((chunk_range p given posts).from ≤ℤ (chunk_range p given posts).to)
unfolding chunk_range
chunks-order p given posts = above (if is_zero given.to then chunk_default p posts else given)
  where
    above :
        (r : Range)
        → (pos 64 ≤ℤ max_int (pos 64) r.from)
          × (max_int (pos 64) r.from ≤ℤ max_int (max_int (pos 64) r.from) r.to)
    above r = ground arith

padded :
    (w : Codec.Options)
    → w.xpadding_obfs ≡ true
    → IsPadding w
    → HasPadding (new_browser_xhttp_codec w)
unfolding new_browser_xhttp_codec
padded w on p = rw on (
  ground arith,
  ground arith,
  or_text-ne-nil w.xpadding_key _ (λ e. cc e),
  or_text-ne-nil w.xpadding_header _ (λ e. cc e),
)

-- Options that pass give a codec with its defaults in place: a base path, places for the session and the
-- sequence with a key where one is needed, a place for uploads, the padding's place, method and names
-- where it is obfuscated, chunks of 64 characters at least, and ranges in order.
pub new_browser_xhttp_codec-Complete :
    (o : BrowserOptions)
    → validate_browser_options o ≡ none
    → Complete (new_browser_xhttp_codec o.wire)
unfolding new_browser_xhttp_codec
new_browser_xhttp_codec-Complete o h =
    let a = (validate_browser_options_accepts o).0 h in
    let w = o.wire in
    let chunks =
      chunks-order (or_place w.uplink_place body) w.uplink_chunk_size
        (default_browser_range w.sc_max_each_post_bytes (range 1000000 1000000)) in
    record {
      base = normalize_browser_path-IsBase w.path;
      session =
          place-kept w.session_place w.session_key (codes "X-Session") a.session_place (λ e. cc e);
      seq = place-kept w.seq_place w.seq_key (codes "X-Seq") a.seq_place (λ e. cc e);
      uplink = ground (arith, a.uplink);
      padding = λ on. padded w on (a.padding on);
      chunk_least = chunks.0;
      chunk_order = chunks.1;
      xpad_range =
          default_range-IsRange w.xpadding_bytes (range 100 1000) a.xpadding_bytes (omega arith);
      max_each_post_bytes =
          default_range-IsRange w.sc_max_each_post_bytes (range 1000000 1000000)
            a.sc_max_each_post_bytes (omega arith);
      min_posts_interval_ms =
          default_range-IsRange w.sc_min_posts_interval_ms (range 30 30) a.sc_min_posts_interval_ms
            (omega arith);
      session_length = a.session_id_length;
    }
