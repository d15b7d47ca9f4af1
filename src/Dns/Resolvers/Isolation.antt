-- ===== src/Dns/Resolvers/Isolation.antt =====
-- A redirected server's own name is never resolved for its addresses.
use cronet_go.Base.{
  ◌≡◌, refl, ap, ◌∙◌, List, [], ◌∷◌, Bool, false, ◌&&◌, arith, if◌then◌else◌, Text, Bool-cases, inl,
  inr,
}
use cronet_go.Dns.{trim_dot, equal_fold}
use cronet_go.Dns.Messages.{Question, Msg, Resolver, Library}
use cronet_go.Dns.Resolvers.{
  by_first, is_address_type, map_msg, readdressed, redirect, ask_as, Server, ipv4, ipv6, domain,
  wrap_for_server_redirect,
}

-- Whether questions ask first for an address of the server.
unfoldable pub asks_address : Text → List Question → Bool
asks_address server [] = false
asks_address server (q ∷ qs) = is_address_type q.qtype && equal_fold (trim_dot q.name) server

-- The address is no name of the server itself, when it is a domain.
abbrev pub Elsewhere : Library → Text → Server → Type 0
Elsewhere lib server (domain d) = equal_fold (trim_dot (lib.fqdn d)) server ≡ false
Elsewhere lib server (ipv4 a) = Unit {0}
Elsewhere lib server (ipv6 a) = Unit {0}

asks_address-ask_as :
    (server name : Text) (qs : List Question)
    → equal_fold (trim_dot name) server ≡ false
    → asks_address server (ask_as name qs) ≡ false
unfolding asks_address ask_as
asks_address-ask_as server name [] h = refl
asks_address-ask_as server name (q ∷ qs) h = ground arith

module _ (lib : Library) (r r' : Resolver) (server : Text)
    (agree : (m : Msg) → asks_address server m.question ≡ false → r m ≡ r' m) where
  redirect-same :
      (address : Server) (request : Msg)
      → Elsewhere lib server address
      → redirect lib r server address request ≡ redirect lib r' server address request
  unfolding redirect
  redirect-same (domain d) request e = ap (map_msg (readdressed request d server)) (
      agree (record request { question = ask_as (lib.fqdn d) request.question })
        (asks_address-ask_as server (lib.fqdn d) request.question e))
  redirect-same (ipv4 a) request e = refl
  redirect-same (ipv6 a) request e = refl

  by_first-same :
      (address : Server) (request : Msg) (qs : List Question)
      → request.question ≡ qs
      → Elsewhere lib server address
      → by_first request qs
          (λ q.
            if is_address_type q.qtype && equal_fold (trim_dot q.name) server
            then redirect lib r server address request
            else r request)
          (r request)
        ≡ by_first request qs
            (λ q.
              if is_address_type q.qtype && equal_fold (trim_dot q.name) server
              then redirect lib r' server address request
              else r' request)
            (r' request)
  unfolding by_first asks_address
  by_first-same address request [] e h = agree request (ap (asks_address server) e)
  by_first-same address request (q ∷ qs) e h =
      elim (Bool-cases (is_address_type q.qtype && equal_fold (trim_dot q.name) server)) [
        | inl asks ↦ rw asks (redirect-same address request h)
        | inr other ↦ rw other (agree request (ap (asks_address server) e ∙ other))
      ]

  -- What a NaiveClient's resolver answers does not depend on what the resolver below it would say to a
  -- query for an address of the server's own name, which is the configured name up to case and a dot at
  -- the query's end, as long as the server's address is an IP address or
  -- a domain other than that name: such a query never reaches it.
  pub wrap_for_server_redirect_isolates :
      (address : Server) (request : Msg)
      → Elsewhere lib server address
      → wrap_for_server_redirect lib r server address request
        ≡ wrap_for_server_redirect lib r' server address request
  unfolding wrap_for_server_redirect
  wrap_for_server_redirect_isolates address request h =
      by_first-same address request request.question refl h
