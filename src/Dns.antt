-- ===== src/Dns.antt =====
-- naive_dns.go: the names in DNS queries and answers that are rewritten on their way through the resolvers
-- of a NaiveClient.
pub mod Labels
pub mod Names
pub mod Messages
pub mod Resolvers
pub mod Serving
mod Examples
use cronet_go.Base.{
  ℕ, zero, suc, ◌+◌, ◌-◌, ◌*◌, ◌<◌, List, [], ◌∷◌, ◌++◌, Option, none, some, Bool, true, false,
  ◌&&◌, ◌||◌, not, if◌then◌else◌, ltb, leb, ◌==◌, length, drop, Text, codes, is_empty, has_prefix,
  ℤ, pos, negsuc,
}
use cronet_go.Paths.{trim_suffix, trim_prefix}

abbrev pub dot : ℕ
dot = b'.'

abbrev pub trim_dot : Text → Text
trim_dot s = trim_suffix dot s

-- strings.EqualFold on ASCII names.
abbrev pub fold : ℕ → ℕ
fold c = if leb b'A' c && leb c b'Z' then c + 32 else c

abbrev pub equal_fold : Text → Text → Bool
equal_fold [] [] = true
equal_fold [] (y ∷ ys) = false
equal_fold (x ∷ xs) [] = false
equal_fold (x ∷ xs) (y ∷ ys) = (fold x == fold y) && equal_fold xs ys

abbrev pub begins_with : Text → Text → Bool
begins_with [] s = true
begins_with (p ∷ ps) [] = false
begins_with (p ∷ ps) (c ∷ cs) = (p == c) && begins_with ps cs

-- strings.SplitN(s, label, 2): the two parts around the first place of a label, or `none` for one part.
abbrev pub before : ℕ → Option (Text × Text) → Option (Text × Text)
before c none = none
before c (some (p, s)) = some (c ∷ p, s)

unfoldable pub split_label : Text → Text → Option (Text × Text)
split_label label [] = none
split_label label (c ∷ cs) =
    if begins_with label (c ∷ cs)
    then some ([], drop (length label) (c ∷ cs))
    else before c (split_label label cs)

abbrev pub https_label : Text
https_label = codes "._https."

-- A name with a port and a service in front, like _8443._https.example.com.
unfoldable pub split_service : Text → Option (Text × Text)
unfolding split_label
split_service s = if has_prefix b'_' s then split_label https_label s else none

-- A name with its dot at the end.
abbrev pub rooted : Text → Text
rooted s = s ++ dot ∷ []

-- The rename of a name, with or without a service, that both directions share; `other` is the name where
-- it is not that of the server.
renamed : Option (Text × Text) → Text → Text → Text → Text
renamed none from to other = other
renamed (some (p, s)) from to other =
    if equal_fold s from then rooted (p ++ (https_label ++ to)) else other

unfoldable pub rewrite_https_query_name : Text → Text → Text → Text
unfolding renamed split_service
rewrite_https_query_name query_name from to =
    let q = trim_dot query_name in
    let f = trim_dot from in
    let t = trim_dot to in
    let plain = if equal_fold q f then rooted t else rooted q in renamed (split_service q) f t plain

-- The name of one answer, as rewriteHTTPSAnswerNames leaves it, and the target of one.
unfoldable pub rewrite_answer_name : Text → Text → Text → Text
unfolding renamed split_service
rewrite_answer_name name from to =
    let n = trim_dot name in
    let f = trim_dot from in
    let t = trim_dot to in if equal_fold n f then rooted t else renamed (split_service n) f t name

unfoldable pub rewrite_target : Text → Text → Text → Text
rewrite_target target from to =
    if equal_fold (trim_dot target) (trim_dot from) then rooted (trim_dot to) else target

service_of : Option (Text × Text) → Text → Bool
service_of none server = false
service_of (some (p, s)) server = equal_fold s server

unfoldable pub matches_server_name : Text → Text → Bool
unfolding service_of split_service
matches_server_name query_name server_name =
    let q = trim_dot query_name in
    let s = trim_dot server_name in if equal_fold q s then true else service_of (split_service q) s

-- strconv.Atoi: an optional sign and decimal digits, within 64 bits.
digits_value : Text → ℕ → Option ℕ
digits_value [] n = some n
digits_value (c ∷ cs) n =
    let rest = digits_value cs (n * 10 + (c - b'0')) in
    if leb b'0' c && leb c b'9' then rest else none

unsigned : Text → Option ℕ
unfolding digits_value
unsigned [] = none
unsigned (c ∷ cs) = digits_value (c ∷ cs) 0

bounded : Bool → Option ℕ → Option ℤ
bounded minus none = none
bounded true (some n) =
    if ltb 9223372036854775808 n then none else some (if n == 0 then pos 0 else negsuc (n - 1))
bounded false (some n) = if ltb 9223372036854775807 n then none else some (pos n)

unfoldable pub atoi : Text → Option ℤ
unfolding bounded unsigned
atoi [] = none
atoi (c ∷ cs) =
    if c == b'-'
    then bounded true (unsigned cs)
    else (if c == b'+' then bounded false (unsigned cs) else bounded false (unsigned (c ∷ cs)))

port_of : Option ℤ → Option ℕ
port_of none = none
port_of (some (negsuc n)) = none
port_of (some (pos n)) = if (n == 0) || ltb 65535 n then none else some n

service_port : Option (Text × Text) → Option ℕ
unfolding port_of atoi
service_port none = none
service_port (some (p, s)) = port_of (atoi (trim_prefix b'_' p))

unfoldable pub parse_https_service_port : Text → Option ℕ
unfolding service_port split_service
parse_https_service_port query_name = service_port (split_service (trim_dot query_name))
