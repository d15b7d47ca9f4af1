-- ===== src/Options/Accepted.antt =====
-- validateBrowserOptions against a description of the options that are accepted.
use cronet_go.Base.{
  ℕ, ◌≡◌, ◌≢◌, refl, ◌↔◌, ◌⊎◌, [], ◌∷◌, Option, none, some, Bool, true, false, not, ◌&&◌, ◌||◌,
  arith, if◌then◌else◌, Text, codes, is_empty, text_eq→eq, text_eq_refl, ℤ, pos, le_int, ◌≤ℤ◌,
  Error,
}
use cronet_go.Paths.{valid_browser_grpc_path}
use cronet_go.Codec.{
  Mode, default_mode, packet_up, stream_up, stream_one, unknown_mode, Place, unset, path, query,
  header, cookie, query_in_header, body, auto, unknown_place, PaddingMethod, default_method,
  repeat_x, tokenish, unknown_method, Range,
}
use cronet_go.Codec
use cronet_go.Options.{
  BrowserOptions, uses_trusted_root_certificates, ◌then_check◌, refuse, is_streaming, is_default_or,
  is_body_or_unset, is_query, check_grpc, has_ech, check_reality, check_ech, is_range, check_ranges,
  is_field_place, check_uplink, is_padding_place, is_padding_method, check_padding,
  validate_browser_options,
}

abbrev pub Streams : Mode → Type 0
Streams m = (m ≡ stream_up) ⊎ (m ≡ stream_one)

-- Roots of its own: a PEM text, or the wish for the roots of an empty one.
abbrev pub OwnRoots : BrowserOptions → Type 0
OwnRoots o = (o.use_trusted_root_certificates ≡ true) ⊎ (o.trusted_root_certificates ≢ [])

abbrev pub Ech : BrowserOptions → Type 0
Ech o = (o.ech_config_list ≢ []) ⊎ (o.has_get_ech_config_list ≡ true)

abbrev pub IsRange : Range → Type 0
IsRange r = (pos 0 ≤ℤ r.from) × (r.from ≤ℤ r.to)

abbrev pub IsFieldPlace : Place → Type 0
IsFieldPlace p = (p ≡ unset) ⊎ (p ≡ path) ⊎ (p ≡ query) ⊎ (p ≡ header) ⊎ (p ≡ cookie)

abbrev pub IsUplink : Mode → Text → Place → Type 0
IsUplink mode key place =
    (place ≡ unset)
    ⊎ (place ≡ body)
    ⊎ (place ≡ auto)
    ⊎ (((place ≡ header) ⊎ (place ≡ cookie)) × ¬ Streams mode × (key ≢ []))

abbrev pub IsPadding : Codec.Options → Type 0
IsPadding w =
    ((w.xpadding_place ≡ unset)
      ⊎ (w.xpadding_place ≡ header)
      ⊎ (w.xpadding_place ≡ query)
      ⊎ (w.xpadding_place ≡ cookie)
      ⊎ (w.xpadding_place ≡ query_in_header))
    × ((w.xpadding_method ≡ default_method)
        ⊎ (w.xpadding_method ≡ repeat_x)
        ⊎ (w.xpadding_method ≡ tokenish))

-- What a gRPC tunnel needs.
pub record IsGrpc (o : BrowserOptions) : Type 0 where
  pub streams : Streams o.mode
  pub headers : o.no_grpc_header ≡ false
  pub posts : (o.method ≡ []) ⊎ (o.method ≡ codes "POST")
  pub in_body : (o.wire.uplink_place ≡ unset) ⊎ (o.wire.uplink_place ≡ body)
  pub service : valid_browser_grpc_path o.wire.path ≡ true
  pub padding : ¬ ((o.wire.xpadding_obfs ≡ true) × (o.wire.xpadding_place ≡ query))

-- The options that go together.
pub record Accepted (o : BrowserOptions) : Type 0 where
  pub shared_engine : o.has_engine ≡ true → ¬ OwnRoots o
  pub grpc : o.grpc_framing ≡ true → IsGrpc o
  pub reality : o.has_reality ≡ true → (o.has_engine ≡ false) × ¬ Ech o × ¬ OwnRoots o
  pub ech :
      Ech o
      → (o.has_dial_context ≡ true)
        × ¬ ((o.ech_config_list ≢ []) × (o.has_get_ech_config_list ≡ true))
  pub dialling : o.has_dial_context ≡ true → (o.has_dialer ≡ false) × (o.has_engine ≡ false)
  pub xpadding_bytes : IsRange o.wire.xpadding_bytes
  pub uplink_chunk_size : IsRange o.wire.uplink_chunk_size
  pub session_id_length : IsRange o.wire.session_id_length
  pub sc_max_each_post_bytes : IsRange o.wire.sc_max_each_post_bytes
  pub sc_min_posts_interval_ms : IsRange o.wire.sc_min_posts_interval_ms
  pub session_place : IsFieldPlace o.wire.session_place
  pub seq_place : IsFieldPlace o.wire.seq_place
  pub uplink : IsUplink o.mode o.wire.uplink_key o.wire.uplink_place
  pub padding : o.wire.xpadding_obfs ≡ true → IsPadding o.wire
  pub buffered_posts : pos 0 ≤ℤ o.sc_max_buffered_posts

-- Checks in a row succeed when all do.
infixr 20 ◌also◌
record ◌also◌ (P Q : Type 0) : Type 0 where
  left : P
  right : Q

both_iff :
    {P Q : Type 0} (a b : Option Error)
    → (a ≡ none) ↔ P
    → (b ≡ none) ↔ Q
    → ((a then_check b) ≡ none) ↔ (P also Q)
both_iff none b i j = (λ h. record { left = i.0 refl; right = j.0 h }, λ a. j.1 a.right)
both_iff (some e) b i j = (λ h. absurd (cc h), λ a. absurd (cc (i.1 a.left)))

refuse_iff : {P : Type 0} (n : ℕ) (b : Bool) → (b ≡ true) ↔ P → (refuse n (not b) ≡ none) ↔ P
refuse_iff n true i = (λ _. i.0 refl, λ _. refl)
refuse_iff n false i = (λ h. absurd (cc h), λ p. absurd (cc (i.1 p)))

is_empty_iff : (t : Text) → (is_empty t ≡ true) ↔ (t ≡ [])
is_empty_iff [] = ground arith
is_empty_iff (x ∷ xs) = ground arith

is_streaming_iff : (m : Mode) → (is_streaming m ≡ true) ↔ Streams m
is_streaming_iff m = ground arith

is_body_or_unset_iff : (p : Place) → (is_body_or_unset p ≡ true) ↔ ((p ≡ unset) ⊎ (p ≡ body))
is_body_or_unset_iff p = ground arith

is_query_iff : (p : Place) → (is_query p ≡ true) ↔ (p ≡ query)
is_query_iff p = ground arith

is_range_iff : (r : Range) → (is_range r ≡ true) ↔ IsRange r
unfolding is_range
is_range_iff r = ground arith

is_field_place_iff : (p : Place) → (is_field_place p ≡ true) ↔ IsFieldPlace p
is_field_place_iff p = ground arith

IsUplink-iff :
    (m : Mode) (key : Text) (p : Place) → (check_uplink m key p ≡ none) ↔ IsUplink m key p
unfolding check_uplink
IsUplink-iff m key p = ground (arith, is_streaming_iff m, is_empty_iff key)

is_padding_place_iff :
    (p : Place)
    → (is_padding_place p ≡ true)
      ↔ ((p ≡ unset) ⊎ (p ≡ header) ⊎ (p ≡ query) ⊎ (p ≡ cookie) ⊎ (p ≡ query_in_header))
is_padding_place_iff p = ground arith

is_padding_method_iff :
    (m : PaddingMethod)
    → (is_padding_method m ≡ true) ↔ ((m ≡ default_method) ⊎ (m ≡ repeat_x) ⊎ (m ≡ tokenish))
is_padding_method_iff m = ground arith

-- A check under a condition.
when_iff :
    {P : Type 0} (b : Bool) (e : Option Error)
    → (e ≡ none) ↔ P
    → ((if b then e else none) ≡ none) ↔ (b ≡ true → P)
when_iff true e i = (λ h _. i.0 h, λ f. i.1 (f refl))
when_iff false e i = (λ _ h. absurd (cc h), λ _. refl)

IsPadding-iff :
    (w : Codec.Options) → (check_padding w ≡ none) ↔ (w.xpadding_obfs ≡ true → IsPadding w)
unfolding check_padding
IsPadding-iff w =
    when_iff w.xpadding_obfs _ (
      ground
        (arith, is_padding_place_iff w.xpadding_place, is_padding_method_iff w.xpadding_method))

is_default_or_iff : (t d : Text) → (is_default_or t d ≡ true) ↔ ((t ≡ []) ⊎ (t ≡ d))
is_default_or_iff t d = ground (arith, is_empty_iff t, text_eq→eq t d, text_eq_refl d)

IsGrpc-iff : (o : BrowserOptions) → (check_grpc o ≡ none) ↔ (o.grpc_framing ≡ true → IsGrpc o)
unfolding check_grpc
IsGrpc-iff o = when_iff o.grpc_framing _ (
    ground (
      arith,
      is_streaming_iff o.mode,
      is_default_or_iff o.method (codes "POST"),
      is_body_or_unset_iff o.wire.uplink_place,
      is_query_iff o.wire.xpadding_place,
    ))

roots_iff : (o : BrowserOptions) → (uses_trusted_root_certificates o ≡ true) ↔ OwnRoots o
unfolding uses_trusted_root_certificates
roots_iff o = ground (arith, is_empty_iff o.trusted_root_certificates)

Ech-wanted : (o : BrowserOptions) → (has_ech o ≡ true) ↔ Ech o
unfolding has_ech
Ech-wanted o = ground (arith, is_empty_iff o.ech_config_list)

reality_iff :
    (o : BrowserOptions)
    → (check_reality o ≡ none)
      ↔ (o.has_reality ≡ true → (o.has_engine ≡ false) × ¬ Ech o × ¬ OwnRoots o)
unfolding check_reality
reality_iff o = when_iff o.has_reality _ (ground (arith, roots_iff o, Ech-wanted o))

Ech-checked :
    (o : BrowserOptions)
    → (check_ech o ≡ none) ↔ (
        Ech o
        → (o.has_dial_context ≡ true)
          × ¬ ((o.ech_config_list ≢ []) × (o.has_get_ech_config_list ≡ true)))
unfolding check_ech
Ech-checked o = ground (arith, Ech-wanted o, is_empty_iff o.ech_config_list)

ranges_iff :
    (w : Codec.Options)
    → (check_ranges w ≡ none) ↔ (
        IsRange w.xpadding_bytes
        also IsRange w.uplink_chunk_size
        also IsRange w.session_id_length
        also IsRange w.sc_max_each_post_bytes
        also IsRange w.sc_min_posts_interval_ms)
unfolding check_ranges
ranges_iff w = both_iff _ _ (one w.xpadding_bytes) (
    both_iff _ _ (one w.uplink_chunk_size) (
      both_iff _ _ (one w.session_id_length)
        (both_iff _ _ (one w.sc_max_each_post_bytes) (one w.sc_min_posts_interval_ms))))
  where
    one : (r : Range) → (refuse 52 (not (is_range r)) ≡ none) ↔ IsRange r
    one r = refuse_iff 52 (is_range r) (is_range_iff r)

shared_iff :
    (o : BrowserOptions)
    → (refuse 40 (o.has_engine && uses_trusted_root_certificates o) ≡ none)
      ↔ (o.has_engine ≡ true → ¬ OwnRoots o)
shared_iff o = ground (arith, roots_iff o)

dialling_iff :
    (o : BrowserOptions)
    → (refuse 51 (o.has_dial_context && (o.has_dialer || o.has_engine)) ≡ none)
      ↔ (o.has_dial_context ≡ true → (o.has_dialer ≡ false) × (o.has_engine ≡ false))
dialling_iff o = ground arith

place_iff : (p : Place) → (refuse 53 (not (is_field_place p)) ≡ none) ↔ IsFieldPlace p
place_iff p = refuse_iff 53 (is_field_place p) (is_field_place_iff p)

buffered_iff : (n : ℤ) → (refuse 59 (not (le_int (pos 0) n)) ≡ none) ↔ (pos 0 ≤ℤ n)
buffered_iff n = refuse_iff 59 (le_int (pos 0) n) (ground arith)

-- The checks of all parts, in the code's order.
abbrev Parts : BrowserOptions → Type 0
Parts o =
    (o.has_engine ≡ true → ¬ OwnRoots o)
    also (o.grpc_framing ≡ true → IsGrpc o)
    also (o.has_reality ≡ true → (o.has_engine ≡ false) × ¬ Ech o × ¬ OwnRoots o)
    also (Ech o
        → (o.has_dial_context ≡ true)
          × ¬ ((o.ech_config_list ≢ []) × (o.has_get_ech_config_list ≡ true)))
    also (o.has_dial_context ≡ true → (o.has_dialer ≡ false) × (o.has_engine ≡ false))
    also (IsRange o.wire.xpadding_bytes
        also IsRange o.wire.uplink_chunk_size
        also IsRange o.wire.session_id_length
        also IsRange o.wire.sc_max_each_post_bytes
        also IsRange o.wire.sc_min_posts_interval_ms)
    also IsFieldPlace o.wire.session_place
    also IsFieldPlace o.wire.seq_place
    also IsUplink o.mode o.wire.uplink_key o.wire.uplink_place
    also (o.wire.xpadding_obfs ≡ true → IsPadding o.wire)
    also (pos 0 ≤ℤ o.sc_max_buffered_posts)

Parts-iff : (o : BrowserOptions) → (validate_browser_options o ≡ none) ↔ Parts o
unfolding validate_browser_options
Parts-iff o = both_iff _ _ (shared_iff o) (
    both_iff _ _ (IsGrpc-iff o) (
      both_iff _ _ (reality_iff o) (
        both_iff _ _ (Ech-checked o) (
          both_iff _ _ (dialling_iff o) (
            both_iff _ _ (ranges_iff o.wire) (
              both_iff _ _ (place_iff o.wire.session_place) (
                both_iff _ _ (place_iff o.wire.seq_place) (
                  both_iff _ _ (IsUplink-iff o.mode o.wire.uplink_key o.wire.uplink_place) (
                    both_iff _ _ (IsPadding-iff o.wire)
                      (buffered_iff o.sc_max_buffered_posts))))))))))

Accepted-of : (o : BrowserOptions) → Parts o → Accepted o
Accepted-of o p =
    let grpc = p.right in
    let reality = grpc.right in
    let ech = reality.right in
    let dialling = ech.right in
    let ranges = dialling.right in
    let r = ranges.left in
    let places = ranges.right in
    let uplink = places.right.right in
    record {
      shared_engine = p.left;
      grpc = grpc.left;
      reality = reality.left;
      ech = ech.left;
      dialling = dialling.left;
      xpadding_bytes = r.left;
      uplink_chunk_size = r.right.left;
      session_id_length = r.right.right.left;
      sc_max_each_post_bytes = r.right.right.right.left;
      sc_min_posts_interval_ms = r.right.right.right.right;
      session_place = places.left;
      seq_place = places.right.left;
      uplink = uplink.left;
      padding = uplink.right.left;
      buffered_posts = uplink.right.right;
    }

infixr 20 ◌along◌
◌along◌ : {P Q : Type 0} → P → Q → P also Q
p along q = record { left = p; right = q }

Parts-of : (o : BrowserOptions) → Accepted o → Parts o
Parts-of o a =
    a.shared_engine
    along a.grpc
    along a.reality
    along a.ech
    along a.dialling
    along (a.xpadding_bytes along a.uplink_chunk_size along a.session_id_length
        along a.sc_max_each_post_bytes along a.sc_min_posts_interval_ms)
    along a.session_place
    along a.seq_place
    along a.uplink
    along a.padding
    along a.buffered_posts

-- validateBrowserOptions returns nil for exactly the options that go together.
pub validate_browser_options_accepts :
    (o : BrowserOptions) → (validate_browser_options o ≡ none) ↔ Accepted o
validate_browser_options_accepts o =
    (λ h. Accepted-of o ((Parts-iff o).0 h), λ a. (Parts-iff o).1 (Parts-of o a))
