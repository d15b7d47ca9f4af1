-- ===== src/Dns/Names.antt =====
-- The name of a query for HTTPS records comes back from the answers to its rewritten form.
use cronet_go.Base.{
  ◌≡◌, refl, ap, ◌∙◌, inl, inr, ◌++◌, Option, none, some, true, false, arith, Text, Bool-cases,
  Option-cases,
}
use cronet_go.Dns.{
  trim_dot, equal_fold, https_label, split_service, rooted, renamed, rewrite_https_query_name,
  rewrite_answer_name, service_of, matches_server_name,
}
use cronet_go.Dns.Labels.{
  Service, equal_fold_refl, equal_fold_sym, equal_fold-append, trim_dot-rooted,
  split_service-Service, service-not-fold,
}

-- What a round trip of a name through the rewritten query promises.
pub record ComesBack (query_name from to : Text) : Type 0 where
  -- the rewritten query is one for the other name
  pub asks : matches_server_name (rewrite_https_query_name query_name from to) to ≡ true
  -- and an answer of that name is given back under the name that was asked for
  pub answers :
      equal_fold
        (trim_dot (rewrite_answer_name (rewrite_https_query_name query_name from to) to from))
        (trim_dot query_name)
      ≡ true

module _ (name from to : Text) where
  answer_plain :
      equal_fold (trim_dot name) (trim_dot from) ≡ true
      → rewrite_answer_name name from to ≡ rooted (trim_dot to)
  unfolding rewrite_answer_name
  answer_plain h = rw h refl

  answer_service :
      (p s : Text)
      → equal_fold (trim_dot name) (trim_dot from) ≡ false
      → split_service (trim_dot name) ≡ some (p, s)
      → equal_fold s (trim_dot from) ≡ true
      → rewrite_answer_name name from to ≡ rooted (p ++ (https_label ++ trim_dot to))
  unfolding rewrite_answer_name renamed
  answer_service p s h e g = rw (h, e, renamed, g) refl

  query_service :
      (p s : Text)
      → split_service (trim_dot name) ≡ some (p, s)
      → equal_fold s (trim_dot from) ≡ true
      → rewrite_https_query_name name from to ≡ rooted (p ++ (https_label ++ trim_dot to))
  unfolding rewrite_https_query_name renamed
  query_service p s e g = rw (e, renamed, g) refl

  query_plain :
      service_of (split_service (trim_dot name)) (trim_dot from) ≡ false
      → equal_fold (trim_dot name) (trim_dot from) ≡ true
      → rewrite_https_query_name name from to ≡ rooted (trim_dot to)
  unfolding rewrite_https_query_name renamed service_of
  query_plain n h = elim (Option-cases (split_service (trim_dot name))) [
    | inl e ↦ rw (e, renamed, h) refl
    | inr (x, e) ↦ rw (e, renamed) (ground (arith, n, e, h))
  ]

match_plain :
    (name server : Text)
    → equal_fold (trim_dot name) (trim_dot server) ≡ true
    → matches_server_name name server ≡ true
unfolding matches_server_name
match_plain name server h = rw h refl

match_service :
    (name server p s : Text)
    → split_service (trim_dot name) ≡ some (p, s)
    → equal_fold s (trim_dot server) ≡ true
    → matches_server_name name server ≡ true
unfolding matches_server_name service_of
match_service name server p s e h = rw (e, service_of, h) (ground arith)

match_else :
    (name server : Text)
    → matches_server_name name server ≡ true
    → service_of (split_service (trim_dot name)) (trim_dot server) ≡ false
    → equal_fold (trim_dot name) (trim_dot server) ≡ true
unfolding matches_server_name
match_else name server m h = ground arith

service_found :
    (o : Option (Text × Text)) (server : Text)
    → service_of o server ≡ true
    → (p : Text) × (s : Text) × (o ≡ some (p, s)) × (equal_fold s server ≡ true)
unfolding service_of
service_found none server h = cc h
service_found (some (p, s)) server h = (p, s, refl, h)

plain_back :
    (name from to r : Text)
    → r ≡ rooted (trim_dot to)
    → equal_fold (trim_dot name) (trim_dot from) ≡ true
    → (matches_server_name r to ≡ true)
      × (equal_fold (trim_dot (rewrite_answer_name r to from)) (trim_dot name) ≡ true)
plain_back name from to r e h =
    let at : trim_dot r ≡ trim_dot to = ap trim_dot e ∙ trim_dot-rooted (trim_dot to) in
    let same : equal_fold (trim_dot r) (trim_dot to) ≡ true =
      ap (λ (x : Text). equal_fold x (trim_dot to)) at ∙ equal_fold_refl (trim_dot to) in
    (
      match_plain r to same,
      ap (λ (x : Text). equal_fold (trim_dot x) (trim_dot name)) (answer_plain r to from same)
          ∙ ap (λ (x : Text). equal_fold x (trim_dot name)) (trim_dot-rooted (trim_dot from))
          ∙ equal_fold_sym (trim_dot name) (trim_dot from) h,
    )

Service-back :
    (name from to p s r : Text)
    → r ≡ rooted (p ++ (https_label ++ trim_dot to))
    → Service (trim_dot name) p s
    → equal_fold s (trim_dot from) ≡ true
    → (matches_server_name r to ≡ true)
      × (equal_fold (trim_dot (rewrite_answer_name r to from)) (trim_dot name) ≡ true)
Service-back name from to p s r e k h =
    let n = p ++ (https_label ++ trim_dot to) in
    let at : trim_dot r ≡ n = ap trim_dot e ∙ trim_dot-rooted n in
    let parts : split_service (trim_dot r) ≡ some (p, trim_dot to) =
      ap split_service at ∙ k.again (trim_dot to) in
    let other : equal_fold (trim_dot r) (trim_dot to) ≡ false =
      ap (λ (x : Text). equal_fold x (trim_dot to)) at ∙ service-not-fold p (trim_dot to) in
    let own = equal_fold_refl (trim_dot to) in
    (
      match_service r to p (trim_dot to) parts own,
      ap (λ (x : Text). equal_fold (trim_dot x) (trim_dot name))
            (answer_service r to from p (trim_dot to) other parts own)
          ∙ ap (λ (x : Text). equal_fold x (trim_dot name))
              (trim_dot-rooted (p ++ (https_label ++ trim_dot from)))
          ∙ ap (equal_fold (p ++ (https_label ++ trim_dot from))) k.whole
          ∙ equal_fold-append p (https_label ++ trim_dot from) (https_label ++ s) (
              equal_fold-append https_label (trim_dot from) s (equal_fold_sym s (trim_dot from) h)),
    )

-- A query for HTTPS records of a server, with or without a port in front of its name, is rewritten into a
-- query of the same kind for the other name, and an answer that bears the rewritten name is given back
-- under the name that was asked for, up to the case of letters and the dot at the end.
pub rewrite_answer_name-rewrite_https_query_name :
    (query_name from to : Text)
    → matches_server_name query_name from ≡ true
    → ComesBack query_name from to
rewrite_answer_name-rewrite_https_query_name q from to m =
    elim (Bool-cases (service_of (split_service (trim_dot q)) (trim_dot from))) [
      | inl with_service ↦
          let (p, s, e, h) =
            service_found (split_service (trim_dot q)) (trim_dot from) with_service in
          let b =
            Service-back q from to p s _ (query_service q from to p s e h)
              (split_service-Service (trim_dot q) p s e) h in
          record { asks = b.0; answers = b.1 }
      | inr without ↦
          let h = match_else q from m without in
          let b = plain_back q from to _ (query_plain q from to without h) h in
          record { asks = b.0; answers = b.1 }
    ]
