-- ===== src/Dns/Resolvers.antt =====
-- naive_dns.go: the resolver with ECH and the resolver of a redirected server.
pub mod Isolation
pub mod Hints
use cronet_go.Base.{
  ℕ, List, [], ◌∷◌, ◌++◌, Option, none, some, Bool, true, false, ◌&&◌, ◌||◌, not, if◌then◌else◌,
  length, ltb, ◌==◌, Text, codes, is_empty, text_eq,
}
use cronet_go.Dns.{trim_dot, equal_fold, rewrite_https_query_name, matches_server_name, rooted}
use cronet_go.Dns.Messages.{
  QType, type_a, type_aaaa, type_https, type_other, Question, Rr, Msg, Resolver, Library, a_data,
  aaaa_data, rewrite_https_answer_names, inject_ech_config, filter_answers,
}

-- The first question under another name.
unfoldable pub ask_as : Text → List Question → List Question
ask_as name [] = []
ask_as name (q ∷ qs) = record q { name = name } ∷ qs

abbrev pub map_msg : (Msg → Msg) → Option Msg → Option Msg
map_msg f none = none
map_msg f (some m) = some (f m)

abbrev pub is_https_type : QType → Bool
is_https_type type_https = true
is_https_type other = false

abbrev pub filtered : Msg → Msg
filtered m = record m { answer = filter_answers m.answer }

-- The resolver's answer to a query that was asked under another name.
abbrev pub given_back : Msg → Text → Text → Msg → Msg
given_back request from to m = record m {
  question = request.question;
  answer = rewrite_https_answer_names from to m.answer;
}

-- A query for HTTPS records of the server without a fixed configuration.
unfoldable pub forward_https : Resolver → Text → Text → Msg → Question → Option Msg
forward_https resolver server query_server request q =
    let name = rewrite_https_query_name q.name server query_server in
    if not (text_eq query_server server)
    then map_msg (λ m. filtered (given_back request query_server server m))
        (resolver (record request { question = ask_as name request.question }))
    else map_msg filtered (resolver request)

unfoldable pub protocols : Bool → List Text
protocols true = codes "h3" ∷ []
protocols false = codes "h2" ∷ []

unfoldable pub answer_https :
    Library → Resolver → Text → Text → List ℕ → Bool → Msg → Question → Option Msg
answer_https lib resolver server query_server config quic request q =
    if not (is_empty config)
    then some (inject_ech_config lib request none config (protocols quic))
    else forward_https resolver server query_server request q

unfoldable pub by_first : Msg → List Question → (Question → Option Msg) → Option Msg → Option Msg
by_first request [] f other = other
by_first request (q ∷ qs) f other = f q

-- `config` is what echConfigGetter gives for the request.
unfoldable pub wrap_with_ech : Library → Resolver → Text → Text → List ℕ → Bool → Resolver
unfolding forward_https protocols answer_https by_first ask_as
wrap_with_ech lib resolver server query_server config quic request =
    by_first request request.question
      (λ q.
        if is_https_type q.qtype && matches_server_name q.name server
        then answer_https lib resolver server query_server config quic request q
        else resolver request)
      (resolver request)

-- M.Socksaddr: an address of IPv4 or IPv6, or a domain.
pub data Server : Type 0 where
  ipv4 ipv6 : List ℕ → Server
  domain : Text → Server

address_record : Question → Server → QType → List Rr
address_record q (ipv4 a) type_a =
    record { name = q.name; class = 1; ttl = 300; rdata = a_data a } ∷ []
address_record q (ipv6 a) type_aaaa =
    record { name = q.name; class = 1; ttl = 300; rdata = aaaa_data a } ∷ []
address_record q server other = []

synthesize : Msg → Server → List Question → Msg
synthesize reply server [] = reply
synthesize reply server (q ∷ qs) = record reply {
  answer = reply.answer ++ address_record q server q.qtype;
}

unfoldable pub synthesize_address_response : Library → Msg → Server → Msg
unfolding address_record synthesize
synthesize_address_response lib request server =
    synthesize (lib.set_reply request) server request.question

-- rewriteAddressAnswerNames, on one name and on all records.
unfoldable pub rewrite_address_name : Text → Text → Text → Text
rewrite_address_name from to name =
    if equal_fold (trim_dot name) (trim_dot from) then rooted (trim_dot to) else name

unfoldable pub rewrite_address_answer_names : Text → Text → List Rr → List Rr
unfolding rewrite_address_name
rewrite_address_answer_names from to [] = []
rewrite_address_answer_names from to (r ∷ rs) =
    record r { name = rewrite_address_name from to r.name }
    ∷ rewrite_address_answer_names from to rs

abbrev pub is_address_type : QType → Bool
is_address_type type_a = true
is_address_type type_aaaa = true
is_address_type other = false

abbrev pub readdressed : Msg → Text → Text → Msg → Msg
readdressed request from to m = record m {
  question = request.question;
  answer = rewrite_address_answer_names from to m.answer;
}

unfoldable pub redirect : Library → Resolver → Text → Server → Msg → Option Msg
redirect lib resolver server (domain d) request =
    map_msg (readdressed request d server)
      (resolver (record request { question = ask_as (lib.fqdn d) request.question }))
redirect lib resolver server address request =
    some (synthesize_address_response lib request address)

unfoldable pub wrap_for_server_redirect : Library → Resolver → Text → Server → Resolver
unfolding redirect by_first ask_as
wrap_for_server_redirect lib resolver server address request =
    by_first request request.question
      (λ q.
        if is_address_type q.qtype && equal_fold (trim_dot q.name) server
        then redirect lib resolver server address request
        else resolver request)
      (resolver request)
