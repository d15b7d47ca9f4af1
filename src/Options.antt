-- ===== src/Options.antt =====
-- browser_xhttp.go: which options of an XHTTP client validateBrowserOptions accepts.
pub mod Accepted
pub mod Codecs
mod Examples
use cronet_go.Base.{
  ℕ, List, [], ◌∷◌, Option, none, some, Bool, true, false, not, ◌&&◌, ◌||◌, if◌then◌else◌, Text,
  codes, is_empty, text_eq, ℤ, pos, le_int, Error, failure,
}
use cronet_go.Paths.{valid_browser_grpc_path}
use cronet_go.Codec.{
  Mode, default_mode, packet_up, stream_up, stream_one, unknown_mode, Place, unset, path, query,
  header, cookie, query_in_header, body, auto, unknown_place, PaddingMethod, default_method,
  repeat_x, tokenish, unknown_method, Range,
}
use cronet_go.Codec

-- The options, those of the codec in `wire`. Of an engine, dialer or callback only its presence counts.
pub record BrowserOptions : Type 0 where
  pub wire : Codec.Options
  pub mode : Mode
  pub method : Text
  pub no_grpc_header : Bool
  pub grpc_framing : Bool
  pub sc_max_buffered_posts : ℤ
  pub has_engine : Bool
  pub has_dialer : Bool
  pub trusted_root_certificates : Text
  pub use_trusted_root_certificates : Bool
  pub ech_config_list : Text
  pub has_get_ech_config_list : Bool
  pub has_reality : Bool
  pub has_dial_context : Bool

unfoldable pub uses_trusted_root_certificates : BrowserOptions → Bool
uses_trusted_root_certificates o =
    o.use_trusted_root_certificates || not (is_empty o.trusted_root_certificates)

-- The checks, in order: the first error is the result, `none` is nil.
infixr 30 ◌then_check◌
abbrev pub ◌then_check◌ : Option Error → Option Error → Option Error
none then_check b = b
some e then_check b = some e

abbrev pub refuse : ℕ → Bool → Option Error
refuse n true = some (failure n)
refuse n false = none

abbrev pub is_streaming : Mode → Bool
is_streaming stream_up = true
is_streaming stream_one = true
is_streaming mode = false

abbrev pub is_default_or : Text → Text → Bool
is_default_or t d = is_empty t || text_eq t d

abbrev pub is_body_or_unset : Place → Bool
is_body_or_unset unset = true
is_body_or_unset body = true
is_body_or_unset place = false

abbrev pub is_query : Place → Bool
is_query query = true
is_query place = false

unfoldable pub check_grpc : BrowserOptions → Option Error
check_grpc o =
    if o.grpc_framing
    then refuse 41 (not (is_streaming o.mode))
      then_check refuse 42 o.no_grpc_header
      then_check refuse 43 (not (is_default_or o.method (codes "POST")))
      then_check refuse 44 (not (is_body_or_unset o.wire.uplink_place))
      then_check refuse 45 (not (valid_browser_grpc_path o.wire.path))
      then_check refuse 46 (o.wire.xpadding_obfs && is_query o.wire.xpadding_place)
    else none

has_ech : BrowserOptions → Bool
has_ech o = not (is_empty o.ech_config_list) || o.has_get_ech_config_list

unfoldable pub check_reality : BrowserOptions → Option Error
unfolding has_ech uses_trusted_root_certificates
check_reality o =
    if o.has_reality
    then refuse 47 o.has_engine then_check refuse 48 (has_ech o || uses_trusted_root_certificates o)
    else none

unfoldable pub check_ech : BrowserOptions → Option Error
unfolding has_ech
check_ech o =
    if has_ech o
    then refuse 49 (not o.has_dial_context)
      then_check refuse 50 (not (is_empty o.ech_config_list) && o.has_get_ech_config_list)
    else none

unfoldable pub is_range : Range → Bool
is_range r = le_int (pos 0) r.from && le_int r.from r.to

-- The loop over a map of ranges stops at the first bad one it meets; here all fail alike.
unfoldable pub check_ranges : Codec.Options → Option Error
unfolding is_range
check_ranges w =
    refuse 52 (not (is_range w.xpadding_bytes))
    then_check refuse 52 (not (is_range w.uplink_chunk_size))
    then_check refuse 52 (not (is_range w.session_id_length))
    then_check refuse 52 (not (is_range w.sc_max_each_post_bytes))
    then_check refuse 52 (not (is_range w.sc_min_posts_interval_ms))

abbrev pub is_field_place : Place → Bool
is_field_place unset = true
is_field_place path = true
is_field_place query = true
is_field_place header = true
is_field_place cookie = true
is_field_place place = false

unfoldable pub check_uplink : Mode → Text → Place → Option Error
check_uplink mode key unset = none
check_uplink mode key body = none
check_uplink mode key auto = none
check_uplink mode key header = refuse 54 (is_streaming mode) then_check refuse 55 (is_empty key)
check_uplink mode key cookie = refuse 54 (is_streaming mode) then_check refuse 55 (is_empty key)
check_uplink mode key place = some (failure 56)

abbrev pub is_padding_place : Place → Bool
is_padding_place unset = true
is_padding_place header = true
is_padding_place query = true
is_padding_place cookie = true
is_padding_place query_in_header = true
is_padding_place place = false

abbrev pub is_padding_method : PaddingMethod → Bool
is_padding_method (unknown_method m) = false
is_padding_method method = true

unfoldable pub check_padding : Codec.Options → Option Error
check_padding w =
    if w.xpadding_obfs
    then refuse 57 (not (is_padding_place w.xpadding_place))
      then_check refuse 58 (not (is_padding_method w.xpadding_method))
    else none

unfoldable pub validate_browser_options : BrowserOptions → Option Error
unfolding check_grpc check_reality check_ech check_ranges check_uplink check_padding
    uses_trusted_root_certificates
validate_browser_options o =
    refuse 40 (o.has_engine && uses_trusted_root_certificates o)
    then_check check_grpc o
    then_check check_reality o
    then_check check_ech o
    then_check refuse 51 (o.has_dial_context && (o.has_dialer || o.has_engine))
    then_check check_ranges o.wire
    then_check refuse 53 (not (is_field_place o.wire.session_place))
    then_check refuse 53 (not (is_field_place o.wire.seq_place))
    then_check check_uplink o.mode o.wire.uplink_key o.wire.uplink_place
    then_check check_padding o.wire
    then_check refuse 59 (not (le_int (pos 0) o.sc_max_buffered_posts))
