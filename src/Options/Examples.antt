-- ===== src/Options/Examples.antt =====
-- The theorems on options at concrete ones, and tests.
use cronet_go.Base.{◌≡◌, refl, ◌↔◌, [], none, some, true, false, codes, pos, failure}
use cronet_go.Codec
use cronet_go.Codec.{
  unset, path, query, header, cookie, default_method, packet_up, stream_one, range,
  new_browser_xhttp_codec,
}
use cronet_go.Options.{
  BrowserOptions, validate_browser_options, check_grpc, check_reality, check_ech, check_ranges,
  check_uplink, check_padding, uses_trusted_root_certificates, is_range,
}
use cronet_go.Options.Accepted.{Accepted, validate_browser_options_accepts}
use cronet_go.Options.Codecs.{Complete, new_browser_xhttp_codec-Complete}

abbrev plain_wire : Codec.Options
plain_wire = record {
  path = codes "/x";
  xpadding_bytes = range 0 0;
  xpadding_obfs = true;
  xpadding_place = unset;
  xpadding_key = [];
  xpadding_header = [];
  xpadding_method = default_method;
  session_place = unset;
  session_key = [];
  seq_place = query;
  seq_key = [];
  uplink_place = header;
  uplink_key = codes "X-Up";
  uplink_chunk_size = range 1 2;
  session_id_table = [];
  session_id_length = range 0 0;
  sc_max_each_post_bytes = range 10 20;
  sc_min_posts_interval_ms = range 0 0;
}

abbrev plain_options : BrowserOptions
plain_options = record {
  wire = plain_wire;
  mode = packet_up;
  method = [];
  no_grpc_header = false;
  grpc_framing = false;
  sc_max_buffered_posts = pos 0;
  has_engine = false;
  has_dialer = false;
  trusted_root_certificates = [];
  use_trusted_root_certificates = false;
  ech_config_list = [];
  has_get_ech_config_list = false;
  has_reality = false;
  has_dial_context = false;
}

passes : validate_browser_options plain_options ≡ none
unfolding validate_browser_options check_grpc check_reality check_ech check_ranges check_uplink
    check_padding uses_trusted_root_certificates is_range
passes = refl

-- A streaming mode cannot place its uploads in headers.
streams_refused :
    validate_browser_options (record plain_options { mode = stream_one }) ≡ some (failure 54)
unfolding validate_browser_options check_grpc check_reality check_ech check_ranges check_uplink
    check_padding uses_trusted_root_certificates is_range
streams_refused = refl

validate_browser_options_accepts_example :
    (validate_browser_options plain_options ≡ none) ↔ Accepted plain_options
validate_browser_options_accepts_example = validate_browser_options_accepts plain_options

new_browser_xhttp_codec-Complete_example : Complete (new_browser_xhttp_codec plain_wire)
new_browser_xhttp_codec-Complete_example = new_browser_xhttp_codec-Complete plain_options passes
