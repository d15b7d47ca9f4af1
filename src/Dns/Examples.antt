-- ===== src/Dns/Examples.antt =====
-- The theorems on DNS at concrete names and messages, and tests.
use cronet_go.Base.{
  ℕ, Option, some, none, arith, length, All, Source, chunk, read_full, write, eof, ◌≡◌, refl, List,
  [], ◌∷◌, ◌++◌, Bool, true, false, if◌then◌else◌, Text, codes, ap, sym,
}
use cronet_go.Dns.{
  rewrite_https_query_name, rewrite_answer_name, matches_server_name, split_service, split_label,
  parse_https_service_port, atoi,
}
use cronet_go.Dns.Serving.{Packing, serve_stream, answer_query, ends_with}
use cronet_go.Dns.Serving.Stream.{framed, appended, answers, IsShort, received, serve_stream-serves}
use cronet_go.Dns.Names.{ComesBack, rewrite_answer_name-rewrite_https_query_name}
use cronet_go.Dns.Messages.{
  type_a, type_https, https_data, ipv4hint, port, Rr, filter_answers, filter_hints, Question, Msg,
  Resolver, Library, normalize_dns_response,
}
use cronet_go.Dns.Resolvers.{
  domain, forward_https, answer_https, by_first, wrap_for_server_redirect, wrap_with_ech,
}
use cronet_go.Dns.Resolvers.Isolation.{asks_address, wrap_for_server_redirect_isolates}
use cronet_go.Dns.Resolvers.Hints.{Shielded, wrap_with_ech-Shielded}

abbrev with_port : Text
with_port = codes "_8443._https.Example.com."

rewritten :
    rewrite_https_query_name with_port (codes "example.com") (codes "ech.net")
    ≡ codes "_8443._https.ech.net."
unfolding rewrite_https_query_name split_service split_label
rewritten = refl

given_name :
    rewrite_answer_name (codes "_8443._https.ECH.net.") (codes "ech.net") (codes "example.com")
    ≡ codes "_8443._https.example.com."
unfolding rewrite_answer_name split_service split_label
given_name = refl

port_found : parse_https_service_port with_port ≡ some 8443
unfolding parse_https_service_port split_service split_label atoi
port_found = refl

no_port :
    (parse_https_service_port (codes "_65536._https.a.") ≡ none)
    × (parse_https_service_port (codes "a.") ≡ none)
unfolding parse_https_service_port split_service split_label atoi
no_port = (refl, refl)

matching : matches_server_name with_port (codes "example.com") ≡ true
unfolding matches_server_name split_service split_label
matching = refl

rewrite_answer_name-rewrite_https_query_name_example :
    ComesBack with_port (codes "example.com") (codes "ech.net")
rewrite_answer_name-rewrite_https_query_name_example =
    rewrite_answer_name-rewrite_https_query_name with_port (codes "example.com") (codes "ech.net")
      matching

abbrev first_only : List Question → List Question
first_only [] = []
first_only (q ∷ qs) = q ∷ []

one_question : (m : Msg) (q : Question) → m.question ≡ q ∷ [] → first_only m.question ≡ q ∷ []
one_question m q h = ap first_only h

abbrev library : Library
library = record {
  set_reply = λ m. record {
    id = m.id;
    response = true;
    truncated = false;
    rcode = 0;
    question = first_only m.question;
    answer = [];
    ns = [];
    extra = [];
  };
  fqdn = λ s. s ++ b'.' ∷ [];
  reply_id = λ m. refl;
  reply_response = λ m. refl;
  reply_answer = λ m. refl;
  reply_rcode = λ m. refl;
  reply_question = one_question;
}

abbrev address_query : Msg
address_query = record {
  id = 7;
  response = false;
  truncated = false;
  rcode = 0;
  question = record { name = codes "Example.com."; qtype = type_a; qclass = 1 } ∷ [];
  answer = [];
  ns = [];
  extra = [];
}

abbrev https_question : Question
https_question = record { name = with_port; qtype = type_https; qclass = 1 }

abbrev https_query : Msg
https_query = record address_query { question = https_question ∷ [] }

-- Two resolvers that differ on the addresses of example.com only.
abbrev silent : Resolver
silent m = none

abbrev leaky : Resolver
leaky m = if asks_address (codes "example.com") m.question then some m else none

silent-leaky :
    (m : Msg) → asks_address (codes "example.com") m.question ≡ false → silent m ≡ leaky m
silent-leaky m h = ap (λ (b : Bool). if b then some m else none) (sym h)

wrap_for_server_redirect_isolates_example :
    wrap_for_server_redirect library silent
      (codes "example.com")
      (domain (codes "p.net"))
      address_query
    ≡ wrap_for_server_redirect library leaky
        (codes "example.com")
        (domain (codes "p.net"))
        address_query
wrap_for_server_redirect_isolates_example =
    wrap_for_server_redirect_isolates library silent leaky (codes "example.com") silent-leaky
      (domain (codes "p.net")) address_query refl

wrap_with_ech-Shielded_example : Shielded (1 ∷ 2 ∷ []) with_port false none (
    wrap_with_ech library silent
      (codes "example.com")
      (codes "ech.net")
      (1 ∷ 2 ∷ [])
      false
      https_query)
wrap_with_ech-Shielded_example =
    wrap_with_ech-Shielded library silent (codes "example.com") (codes "ech.net") false https_query
      https_question [] refl (1 ∷ 2 ∷ []) refl matching

-- A resolver that gives address hints in the answer section and in the additional one.
abbrev hinted : Rr
hinted = record {
  name = codes "ech.net.";
  class = 1;
  ttl = 300;
  rdata = https_data 1 (codes ".") (ipv4hint (1 ∷ []) ∷ port 443 ∷ []);
}

abbrev hinting : Resolver
hinting m = some (record m { answer = hinted ∷ []; extra = hinted ∷ [] })

hints_dropped :
    wrap_with_ech library hinting (codes "example.com") (codes "example.com") [] false https_query
    ≡ some (record https_query {
      answer = record hinted { rdata = https_data 1 (codes ".") (port 443 ∷ []) } ∷ [];
      extra = hinted ∷ [];
    })
unfolding wrap_with_ech matches_server_name split_service split_label filter_answers filter_hints
    forward_https answer_https by_first
hints_dropped = refl

-- Messages of one byte, their id.
abbrev pack_id : Msg → Option (List ℕ)
pack_id m = some (m.id ∷ [])

abbrev unpack_id : List ℕ → Option Msg
unpack_id [] = none
unpack_id (n ∷ rest) = some (record address_query { id = n })

abbrev packing : Packing
packing = record { unpack = unpack_id; pack = pack_id }

-- Two queries in three pieces.
abbrev pieces : Source
pieces = chunk (0 ∷ []) ∷ chunk (1 ∷ 7 ∷ 0 ∷ 2 ∷ 8 ∷ []) ∷ chunk (9 ∷ []) ∷ []

two_served :
    (serve_stream packing library silent 3 pieces (appended [])).sink.taken
    ≡ 0 ∷ 1 ∷ 7 ∷ 0 ∷ 1 ∷ 8 ∷ []
unfolding serve_stream answer_query read_full write normalize_dns_response
two_served = refl

serve_stream-serves_example :
    (serve_stream packing library silent 3 pieces (appended [])
      ≡ ends_with
          (some eof)
          (appended (framed (answers packing library silent ((7 ∷ []) ∷ (8 ∷ 9 ∷ []) ∷ [])))))
    × (let sent = answers packing library silent ((7 ∷ []) ∷ (8 ∷ 9 ∷ []) ∷ []) in
        All IsShort sent → received (length sent) (framed sent) ≡ sent)
serve_stream-serves_example =
    serve_stream-serves packing library silent ((7 ∷ []) ∷ (8 ∷ 9 ∷ []) ∷ []) 3 pieces [] tt
      (omega arith) refl (omega arith)
