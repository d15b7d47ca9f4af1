-- ===== src/Codec.antt =====
-- browser_xhttp.go: the codec of XHTTP requests. Ranges and their defaults, where a field goes, the
-- padding, the chunks of an upload in headers and the identifier of a session.
pub mod Headers
pub mod Ranges
pub mod Base64
pub mod Uplink
pub mod Identifiers
pub mod Padding
mod Examples
use cronet_go.Base.{
  ℕ, zero, suc, ◌+◌, ◌-◌, ◌*◌, ◌/◌, ◌%◌, List, [], ◌∷◌, ◌++◌, Option, none, some, Bool, true, false,
  ◌&&◌, ◌||◌, if◌then◌else◌, ◌==◌, ltb, leb, length, take, drop, replicate, Text, codes, is_empty,
  text_eq, decimal, ℤ, pos, negsuc, pos_part, le_int, ◌+ℤ◌, ◌-ℤ◌, max_int,
}
use cronet_go.Paths.{normalize_browser_path, browser_append_path}

-- The names of placements in the options and the texts that are none of them, the empty one first.
pub data Place : Type 0 where
  unset path query header cookie query_in_header body auto : Place
  unknown_place : Text → Place

pub data PaddingMethod : Type 0 where
  default_method repeat_x tokenish : PaddingMethod
  unknown_method : Text → PaddingMethod

pub data Mode : Type 0 where
  default_mode packet_up stream_up stream_one : Mode
  unknown_mode : Text → Mode

pub record Range : Type 0 where
  pub from : ℤ
  pub to : ℤ

abbrev pub range : ℕ → ℕ → Range
range a b = record { from = pos a; to = pos b }

abbrev pub is_zero : ℤ → Bool
is_zero a = le_int a (pos 0) && le_int (pos 0) a

abbrev pub default_browser_range : Range → Range → Range
default_browser_range v d = if is_zero v.to then d else v

-- `raw` is the little-endian word of the four random bytes.
unfoldable pub browser_range_rand : Range → ℕ → ℤ
browser_range_rand r raw =
    if le_int r.to r.from then r.from else r.from +ℤ pos (raw % (pos_part (r.to -ℤ r.from) + 1))

-- An http.Header: each canonical name with its values. Get gives the first value, and "" without one.
-- Set replaces all values.
pub record Url : Type 0 where
  pub path : Text
  -- RawQuery as the values that it stands for
  pub query : List (Text × Text)

abbrev pub Header : Type 0
Header = List (Text × List Text)

is_lower : ℕ → Bool
is_lower c = leb b'a' c && leb c b'z'

is_upper : ℕ → Bool
is_upper c = leb b'A' c && leb c b'Z'

is_alphanumeric : ℕ → Bool
unfolding is_lower is_upper
is_alphanumeric c = leb b'0' c && leb c b'9' || is_lower c || is_upper c

is_mark : Text → ℕ → Bool
is_mark [] c = false
is_mark (m ∷ ms) c = (m == c) || is_mark ms c

unfoldable pub is_token : ℕ → Bool
unfolding is_alphanumeric is_mark
is_token c = is_alphanumeric c || is_mark (codes "!#$%&'*+-.^_`|~") c

all_token : Text → Bool
all_token [] = true
all_token (c ∷ cs) = is_token c && all_token cs

cased : Bool → ℕ → ℕ
unfolding is_lower is_upper
cased upper c =
    if upper && is_lower c
    then c - 32
    else (if upper then c else (if is_upper c then c + 32 else c))

canonical_from : Bool → Text → Text
unfolding cased
canonical_from upper [] = []
canonical_from upper (c ∷ cs) = cased upper c ∷ canonical_from (c == b'-') cs

-- textproto.CanonicalMIMEHeaderKey.
unfoldable pub canonical : Text → Text
unfolding all_token canonical_from
canonical key = if all_token key then canonical_from true key else key

abbrev pub first : List Text → Text
first [] = []
first (v ∷ vs) = v

-- A Go map as a list of pairs with one pair for each key.
lookup : Text → Header → List Text
lookup k [] = []
lookup k ((j, vs) ∷ h) = if text_eq j k then vs else lookup k h

insert : Text → List Text → Header → Header
insert k vs [] = (k, vs) ∷ []
insert k vs ((j, ws) ∷ h) = if text_eq j k then (k, vs) ∷ h else (j, ws) ∷ insert k vs h

unfoldable pub get : Header → Text → Text
unfolding lookup
get h key = first (lookup (canonical key) h)

unfoldable pub set : Header → Text → Text → Header
unfolding insert
set h key v = insert (canonical key) (v ∷ []) h

-- url.Values: Set and Get on the values of a query.
unfoldable pub set_query : Text → Text → List (Text × Text) → List (Text × Text)
set_query k v [] = (k, v) ∷ []
set_query k v ((j, w) ∷ q) = if text_eq j k then (k, v) ∷ q else (j, w) ∷ set_query k v q

-- The part of the options that the codec is made from.
pub record Options : Type 0 where
  pub path : Text
  pub xpadding_bytes : Range
  pub xpadding_obfs : Bool
  pub xpadding_place : Place
  pub xpadding_key : Text
  pub xpadding_header : Text
  pub xpadding_method : PaddingMethod
  pub session_place : Place
  pub session_key : Text
  pub seq_place : Place
  pub seq_key : Text
  pub uplink_place : Place
  pub uplink_key : Text
  pub uplink_chunk_size : Range
  pub session_id_table : Text
  pub session_id_length : Range
  pub sc_max_each_post_bytes : Range
  pub sc_min_posts_interval_ms : Range

pub record Codec : Type 0 where
  pub base_path : Text
  pub session_place : Place
  pub session_key : Text
  pub seq_place : Place
  pub seq_key : Text
  pub xpad_obfs : Bool
  pub xpad_placement : Place
  pub xpad_key : Text
  pub xpad_header : Text
  pub xpad_method : PaddingMethod
  pub xpad_range : Range
  pub uplink_place : Place
  pub uplink_key : Text
  pub uplink_chunk_size : Range
  pub max_each_post_bytes : Range
  pub min_posts_interval_ms : Range
  pub session_table : Text
  pub session_length : Range

abbrev pub or_place : Place → Place → Place
or_place unset d = d
or_place p d = p

abbrev pub or_text : Text → Text → Text
or_text t d = if is_empty t then d else t

abbrev pub or_method : PaddingMethod → PaddingMethod → PaddingMethod
or_method default_method d = d
or_method m d = m

-- strings.ToLower and ReplaceAll of one byte, on the two ASCII names that the code gives.
unfoldable pub lower_name : Text → Text
unfolding is_upper
lower_name [] = []
lower_name (c ∷ cs) =
    let c = if c == b'-' then b'_' else c in (if is_upper c then c + 32 else c) ∷ lower_name cs

unfoldable pub browser_default_key : Place → Text → Text
unfolding lower_name
browser_default_key header name = name
browser_default_key path name = []
browser_default_key place name = lower_name name

-- The defaults of the chunks of an upload, by its place.
unfoldable pub chunk_default : Place → Range → Range
chunk_default cookie posts = range 2048 3072
chunk_default header posts = range 3000 4000
chunk_default place posts = posts

unfoldable pub chunk_range : Place → Range → Range → Range
unfolding chunk_default
chunk_range place given posts =
    let r = if is_zero given.to then chunk_default place posts else given in
    let from = max_int (pos 64) r.from in record { from = from; to = max_int from r.to }

unfoldable pub new_browser_xhttp_codec : Options → Codec
unfolding chunk_range browser_default_key
new_browser_xhttp_codec o =
    let session_place = or_place o.session_place path in
    let seq_place = or_place o.seq_place path in
    let uplink_place = or_place o.uplink_place body in
    let posts = default_browser_range o.sc_max_each_post_bytes (range 1000000 1000000) in
    let obfs = o.xpadding_obfs in
    record {
      base_path = normalize_browser_path o.path;
      session_place = session_place;
      session_key = or_text o.session_key (browser_default_key session_place (codes "X-Session"));
      seq_place = seq_place;
      seq_key = or_text o.seq_key (browser_default_key seq_place (codes "X-Seq"));
      xpad_obfs = obfs;
      xpad_placement = if obfs then or_place o.xpadding_place header else o.xpadding_place;
      xpad_key = if obfs then or_text o.xpadding_key (codes "x_padding") else o.xpadding_key;
      xpad_header =
          if obfs then or_text o.xpadding_header (codes "X-Padding") else o.xpadding_header;
      xpad_method = if obfs then or_method o.xpadding_method repeat_x else o.xpadding_method;
      xpad_range = default_browser_range o.xpadding_bytes (range 100 1000);
      uplink_place = uplink_place;
      uplink_key = o.uplink_key;
      uplink_chunk_size = chunk_range uplink_place o.uplink_chunk_size posts;
      max_each_post_bytes = posts;
      min_posts_interval_ms = default_browser_range o.sc_min_posts_interval_ms (range 30 30);
      session_table = o.session_id_table;
      session_length = o.session_id_length;
    }

unfoldable pub browser_add_cookie : Header → Text → Text → Header
browser_add_cookie h name value =
    let old = get h (codes "Cookie") in
    let item = (name ++ b'=' ∷ value) in
    if is_empty old
    then set h (codes "Cookie") item
    else set h (codes "Cookie") (old ++ (codes "; " ++ item))

unfoldable pub browser_apply_field : Url → Header → Place → Text → Text → Url × Header
browser_apply_field u h path key value =
    (record { path = browser_append_path u.path value; query = u.query }, h)
browser_apply_field u h query key value =
    (record { path = u.path; query = set_query key value u.query }, h)
browser_apply_field u h header key value = (u, set h key value)
browser_apply_field u h cookie key value = (u, browser_add_cookie h key value)
browser_apply_field u h place key value = (u, h)

unfoldable pub apply_unless_empty : Url × Header → Place → Text → Text → Url × Header
unfolding browser_apply_field
apply_unless_empty (u, h) place key value =
    if is_empty value then (u, h) else browser_apply_field u h place key value

unfoldable pub apply_meta : Codec → Url → Header → Text → Text → Url × Header
unfolding apply_unless_empty
apply_meta c u h session_id seq =
    apply_unless_empty (apply_unless_empty (u, h) c.session_place c.session_key session_id)
      c.seq_place c.seq_key seq
