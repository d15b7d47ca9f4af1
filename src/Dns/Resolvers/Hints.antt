-- ===== src/Dns/Resolvers/Hints.antt =====
-- What a query for the HTTPS records of the server brings: no address hints in the HTTPS records of the
-- answer section, and the fixed configuration.
use cronet_go.Base.{
  ℕ, ◌≡◌, ◌≢◌, refl, sym, ap, subst, ◌∙◌, List, [], ◌∷◌, ◌++◌, Option, none, some, Bool, true,
  false, not, ◌&&◌, arith, if◌then◌else◌, if_elim, Text, All, text_eq, Bool-cases, inl, inr,
}
use cronet_go.Dns.{matches_server_name, parse_https_service_port, rewrite_https_query_name}
use cronet_go.Dns.Messages.{
  Param, port, alpn, ech, ipv4hint, ipv6hint, other_param, Data, a_data, aaaa_data, https_data,
  svcb_data, other_data, Question, Rr, Msg, Resolver, Library, port_param, new_https, unless_https,
  has_https, inject_all, inject_ech_config, filter_hints, filter_record, filter_answers,
}
use cronet_go.Dns.Resolvers.{
  by_first, is_https_type, map_msg, filtered, given_back, forward_https, answer_https, protocols,
  wrap_with_ech, ask_as,
}

-- No value of a record is an address hint. The code looks at HTTPS records only.
unfoldable pub hint_free : List Param → Bool
hint_free [] = true
hint_free (ipv4hint h ∷ ps) = false
hint_free (ipv6hint h ∷ ps) = false
hint_free (p ∷ ps) = hint_free ps

unfoldable pub data_free : Data → Bool
unfolding hint_free
data_free (https_data priority target params) = hint_free params
data_free other = true

-- No HTTPS record of the answer section has an address hint.
abbrev pub NoHints : Option Msg → Type 0
NoHints none = Unit {0}
NoHints (some m) = All (λ (r : Rr). data_free r.rdata ≡ true) m.answer

hint_free-filter_hints : (ps : List Param) → hint_free (filter_hints ps) ≡ true
unfolding hint_free filter_hints
hint_free-filter_hints [] = refl
hint_free-filter_hints (port n ∷ ps) = hint_free-filter_hints ps
hint_free-filter_hints (alpn ts ∷ ps) = hint_free-filter_hints ps
hint_free-filter_hints (ech c ∷ ps) = hint_free-filter_hints ps
hint_free-filter_hints (ipv4hint h ∷ ps) = hint_free-filter_hints ps
hint_free-filter_hints (ipv6hint h ∷ ps) = hint_free-filter_hints ps
hint_free-filter_hints (other_param n c ∷ ps) = hint_free-filter_hints ps

filter_record-free : (r : Rr) (d : Data) → r.rdata ≡ d → data_free (filter_record r d).rdata ≡ true
unfolding data_free filter_record
filter_record-free r (a_data a) e = rw e refl
filter_record-free r (aaaa_data a) e = rw e refl
filter_record-free r (https_data p t ps) e = hint_free-filter_hints ps
filter_record-free r (svcb_data p t ps) e = rw e refl
filter_record-free r (other_data n c) e = rw e refl

filter_answers-free :
    (rs : List Rr) → All (λ (r : Rr). data_free r.rdata ≡ true) (filter_answers rs)
unfolding filter_answers
filter_answers-free [] = tt
filter_answers-free (r ∷ rs) = (filter_record-free r r.rdata refl, filter_answers-free rs)

filtered-NoHints : (o : Option Msg) → NoHints (map_msg filtered o)
filtered-NoHints none = tt
filtered-NoHints (some m) = filter_answers-free m.answer

given-NoHints :
    (request : Msg) (from to : Text) (o : Option Msg)
    → NoHints (map_msg (λ m. filtered (given_back request from to m)) o)
given-NoHints request from to none = tt
given-NoHints request from to (some m) = filter_answers-free (given_back request from to m).answer

-- The sections behind the answer.
abbrev pub later_sections : Option Msg → Option (List Rr × List Rr)
later_sections none = none
later_sections (some m) = some (m.ns, m.extra)

filtered-later : (o : Option Msg) → later_sections (map_msg filtered o) ≡ later_sections o
filtered-later none = refl
filtered-later (some m) = refl

given-later :
    (request : Msg) (from to : Text) (o : Option Msg)
    → later_sections (map_msg (λ m. filtered (given_back request from to m)) o) ≡ later_sections o
given-later request from to none = refl
given-later request from to (some m) = refl

hint_free-append :
    (ps qs : List Param) → hint_free ps ≡ true → hint_free qs ≡ true → hint_free (ps ++ qs) ≡ true
unfolding hint_free
hint_free-append [] qs h g = g
hint_free-append (port n ∷ ps) qs h g = hint_free-append ps qs h g
hint_free-append (alpn ts ∷ ps) qs h g = hint_free-append ps qs h g
hint_free-append (ech c ∷ ps) qs h g = hint_free-append ps qs h g
hint_free-append (ipv4hint x ∷ ps) qs h g = cc h
hint_free-append (ipv6hint x ∷ ps) qs h g = cc h
hint_free-append (other_param n c ∷ ps) qs h g = hint_free-append ps qs h g

port_param-free : (o : Option ℕ) → hint_free (port_param o) ≡ true
unfolding hint_free port_param
port_param-free none = refl
port_param-free (some n) = refl

new_https-free :
    (name : Text) (config : List ℕ) (ts : List Text)
    → data_free (new_https name config ts).rdata ≡ true
unfolding data_free new_https hint_free
new_https-free name config ts =
    hint_free-append (port_param (parse_https_service_port name)) (alpn ts ∷ ech config ∷ [])
      (port_param-free (parse_https_service_port name)) refl

-- A synthetic reply has one record, the one that is made for the question.
inject-answer :
    (lib : Library) (request : Msg) (q : Question) (qs : List Question) (config : List ℕ)
    (ts : List Text)
    → request.question ≡ q ∷ qs
    → (inject_ech_config lib request none config ts).answer ≡ new_https q.name config ts ∷ []
unfolding inject_ech_config inject_all has_https unless_https
inject-answer lib request q qs config ts e =
    rw (lib.reply_answer request, inject_all, has_https, e, unless_https) refl

both : {a b : Bool} → a ≡ true → b ≡ true → (a && b) ≡ true
both {a} {b} h g = ground (arith, h, g)

-- The query that goes to the resolver below.
abbrev pub forwarded_query : Text → Text → Msg → Question → Msg
forwarded_query server query_server request q =
    if text_eq query_server server then request else record request {
      question = ask_as (rewrite_https_query_name q.name server query_server) request.question;
    }

-- What the resolver gives for a query of the server's HTTPS records, where `lower` is what the one below
-- says to the query that is forwarded.
pub record Shielded (config : List ℕ) (name : Text) (quic : Bool) (lower o : Option Msg)
    : Type 0 where
  -- no HTTPS record of the answer section has an address hint
  pub hints : NoHints o
  -- without a fixed configuration the other sections are those that came, hints included
  pub passed : config ≡ [] → later_sections o ≡ later_sections lower
  -- a fixed configuration is answered at once, by the one record that is made from it
  pub fixed :
      config ≢ []
      → (m : Msg) × (o ≡ some m) × (m.answer ≡ new_https name config (protocols quic) ∷ [])

module _ (lib : Library) (resolver : Resolver) (server query_server : Text) (quic : Bool)
    (request : Msg) (q : Question) (qs : List Question) (e : request.question ≡ q ∷ qs) where
  forward_https-NoHints : NoHints (forward_https resolver server query_server request q)
  unfolding forward_https
  forward_https-NoHints =
      if_elim NoHints (not (text_eq query_server server)) _ _
        (λ other. given-NoHints request query_server server _)
        (λ same. filtered-NoHints (resolver request))

  lower : Option Msg
  lower = resolver (forwarded_query server query_server request q)

  forward_https-passed :
      later_sections (forward_https resolver server query_server request q) ≡ later_sections lower
  unfolding forward_https lower
  forward_https-passed = elim (Bool-cases (text_eq query_server server)) [
    | inl same ↦ rw same (filtered-later (resolver request))
    | inr other ↦ rw other (given-later request query_server server _)
  ]

  answer_https-Shielded :
      (config : List ℕ)
      → Shielded config q.name quic lower
          (answer_https lib resolver server query_server config quic request q)
  unfolding answer_https
  answer_https-Shielded [] = record {
    hints = forward_https-NoHints;
    passed = λ e. forward_https-passed;
    fixed = λ n. absurd (n refl);
  }
  answer_https-Shielded (c ∷ cs) =
      let a = inject-answer lib request q qs (c ∷ cs) (protocols quic) e in
      record {
        hints =
            subst (λ (rs : List Rr). All (λ (r : Rr). data_free r.rdata ≡ true) rs) (sym a)
              (new_https-free q.name (c ∷ cs) (protocols quic), tt);
        passed = λ n. cc n;
        fixed = λ n. (inject_ech_config lib request none (c ∷ cs) (protocols quic), refl, a);
      }

  at_first :
      (config : List ℕ)
      → is_https_type q.qtype ≡ true
      → matches_server_name q.name server ≡ true
      → wrap_with_ech lib resolver server query_server config quic request
        ≡ answer_https lib resolver server query_server config quic request q
  unfolding wrap_with_ech by_first
  at_first config h m =
      let f : Question → Option Msg = λ x.
        if is_https_type x.qtype && matches_server_name x.name server
        then answer_https lib resolver server query_server config quic request x
        else resolver request in
      ap (λ (l : List Question). by_first request l f (resolver request)) e
      ∙ ap
          (λ (b : Bool).
            if b
            then answer_https lib resolver server query_server config quic request q
            else resolver request)
          (both h m)

  -- A query for the HTTPS records of the server, by its name or with a port in front, is answered with no
  -- address hint in any HTTPS record of the answer section, whatever the resolver below says. With a fixed
  -- configuration the answer section is the one record that is made for the name that was asked for;
  -- without one the authority and additional sections are those of the resolver below, asked under the
  -- query's server name, and are not filtered.
  pub wrap_with_ech-Shielded :
      (config : List ℕ)
      → is_https_type q.qtype ≡ true
      → matches_server_name q.name server ≡ true
      → Shielded config q.name quic
          (resolver (forwarded_query server query_server request q))
          (wrap_with_ech lib resolver server query_server config quic request)
  unfolding lower
  wrap_with_ech-Shielded config h m =
      subst (Shielded config q.name quic lower) (sym (at_first config h m))
        (answer_https-Shielded config)
