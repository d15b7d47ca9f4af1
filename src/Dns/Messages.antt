-- ===== src/Dns/Messages.antt =====
-- naive_dns.go: DNS messages, the records that are made and changed, and the two wrapped resolvers.
use cronet_go.Base.{
  ℕ, List, [], ◌∷◌, ◌++◌, Option, none, some, Bool, true, false, ◌||◌, if◌then◌else◌, Text,
  is_empty, ◌≡◌,
}
use cronet_go.Dns.{split_service, rewrite_answer_name, rewrite_target, parse_https_service_port}

-- Messages of github.com/miekg/dns, as far as this code reads or writes them.
pub data QType : Type 0 where
  type_a type_aaaa type_https : QType
  type_other : ℕ → QType

pub data Param : Type 0 where
  port : ℕ → Param
  alpn : List Text → Param
  ech : List ℕ → Param
  ipv4hint ipv6hint : List ℕ → Param
  other_param : ℕ → List ℕ → Param

pub data Data : Type 0 where
  a_data aaaa_data : List ℕ → Data
  https_data svcb_data : ℕ → Text → List Param → Data
  other_data : ℕ → List ℕ → Data

pub record Question : Type 0 where
  pub name : Text
  pub qtype : QType
  pub qclass : ℕ

pub record Rr : Type 0 where
  pub name : Text
  pub class : ℕ
  pub ttl : ℕ
  pub rdata : Data

pub record Msg : Type 0 where
  pub id : ℕ
  pub response : Bool
  pub truncated : Bool
  pub rcode : ℕ
  pub question : List Question
  pub answer : List Rr
  -- the authority section (Ns) and the additional one (Extra)
  pub ns : List Rr
  pub extra : List Rr

-- A resolver gives a message, or nil. Copies are made before a message is changed, so the values here
-- are copies.
abbrev pub Resolver : Type 0
Resolver = Msg → Option Msg

-- The calls of that library: SetReply on a new message makes the reply to a request, and Fqdn puts the
-- dot at the end of a name that has none.
pub record Library : Type 0 where
  pub set_reply : Msg → Msg
  pub fqdn : Text → Text
  pub reply_id : (m : Msg) → (set_reply m).id ≡ m.id
  pub reply_response : (m : Msg) → (set_reply m).response ≡ true
  pub reply_answer : (m : Msg) → (set_reply m).answer ≡ []
  pub reply_rcode : (m : Msg) → (set_reply m).rcode ≡ 0
  pub reply_question :
      (m : Msg) (q : Question) → m.question ≡ q ∷ [] → (set_reply m).question ≡ q ∷ []

unfoldable pub normalize_dns_response : Library → Msg → Option Msg → Msg
normalize_dns_response lib request none = record (lib.set_reply request) { rcode = 2 }
normalize_dns_response lib request (some r) = record r {
  id = request.id;
  response = true;
  question = if is_empty r.question then request.question else r.question;
}

unfoldable pub truncated_dns_response : Library → Msg → ℕ → Msg
truncated_dns_response lib request rcode = record (lib.set_reply request) {
  truncated = true;
  rcode = rcode;
}

-- rewriteHTTPSAnswerNames.
rename_https : Text → Text → Rr → Data → Rr
rename_https from to r (https_data priority target params) = record r {
  name = rewrite_answer_name r.name from to;
  rdata = https_data priority (rewrite_target target from to) params;
}
rename_https from to r other = r

unfoldable pub rewrite_https_answer_names : Text → Text → List Rr → List Rr
unfolding rename_https
rewrite_https_answer_names from to [] = []
rewrite_https_answer_names from to (r ∷ rs) =
    rename_https from to r r.rdata ∷ rewrite_https_answer_names from to rs

-- updateECHInSVCB and updatePortInSVCB: the first such value is replaced, or one is added at the end.
unfoldable pub update_ech : List ℕ → List Param → List Param
update_ech config [] = ech config ∷ []
update_ech config (ech old ∷ ps) = ech config ∷ ps
update_ech config (p ∷ ps) = p ∷ update_ech config ps

unfoldable pub update_port : ℕ → List Param → List Param
update_port n [] = port n ∷ []
update_port n (port old ∷ ps) = port n ∷ ps
update_port n (p ∷ ps) = p ∷ update_port n ps

unfoldable pub update_port_if : Option ℕ → List Param → List Param
unfolding update_port
update_port_if none ps = ps
update_port_if (some n) ps = update_port n ps

unfoldable pub inject_record : List ℕ → Option ℕ → Rr → Data → Rr
inject_record config n r (https_data priority target params) = record r {
  rdata = https_data priority target (update_port_if n (update_ech config params));
}
inject_record config n r other = r

unfoldable pub inject_all : List ℕ → Option ℕ → List Rr → List Rr
inject_all config n [] = []
inject_all config n (r ∷ rs) = inject_record config n r r.rdata ∷ inject_all config n rs

unfoldable pub is_https : Data → Bool
is_https (https_data priority target params) = true
is_https other = false

unfoldable pub has_https : List Rr → Bool
has_https [] = false
has_https (r ∷ rs) = is_https r.rdata || has_https rs

unfoldable pub port_param : Option ℕ → List Param
port_param none = []
port_param (some n) = port n ∷ []

-- The target of a name with a service in front is the name behind it.
unfoldable pub target_of : Text → Option (Text × Text) → Text
target_of name none = name
target_of name (some (p, s)) = s

unfoldable pub new_https : Text → List ℕ → List Text → Rr
unfolding port_param target_of
new_https name config protocols = record {
  name = name;
  class = 1;
  ttl = 300;
  rdata =
      https_data 1 (target_of name (split_service name))
        (port_param (parse_https_service_port name) ++ alpn protocols ∷ ech config ∷ []);
}

unfoldable pub first_port : List Question → Option ℕ
first_port [] = none
first_port (q ∷ qs) = parse_https_service_port q.name

unfoldable pub unless_https : Bool → List Question → List ℕ → List Text → List Rr
unless_https true qs config protocols = []
unless_https false [] config protocols = []
unless_https false (q ∷ qs) config protocols = new_https q.name config protocols ∷ []

abbrev pub or_reply : Library → Msg → Option Msg → Msg
or_reply lib request none = lib.set_reply request
or_reply lib request (some r) = r

unfoldable pub inject_ech_config : Library → Msg → Option Msg → List ℕ → List Text → Msg
unfolding inject_record inject_all is_https has_https first_port unless_https
inject_ech_config lib request response config protocols =
    let r = or_reply lib request response in
    record r {
      answer =
          inject_all config (first_port request.question) r.answer
          ++ unless_https (has_https r.answer) request.question config protocols;
    }

-- filterIPHintsFromHTTPS.
unfoldable pub filter_hints : List Param → List Param
filter_hints [] = []
filter_hints (ipv4hint h ∷ ps) = filter_hints ps
filter_hints (ipv6hint h ∷ ps) = filter_hints ps
filter_hints (p ∷ ps) = p ∷ filter_hints ps

unfoldable pub filter_record : Rr → Data → Rr
filter_record r (https_data priority target params) = record r {
  rdata = https_data priority target (filter_hints params);
}
filter_record r other = r

unfoldable pub filter_answers : List Rr → List Rr
unfolding filter_record
filter_answers [] = []
filter_answers (r ∷ rs) = filter_record r r.rdata ∷ filter_answers rs
