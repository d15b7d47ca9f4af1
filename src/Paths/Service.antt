-- ===== src/Paths/Service.antt =====
-- browserGRPCPath on the paths that validBrowserGRPCPath allows.
use cronet_go.Base.{
  ℕ, ◌≡◌, refl, ap, sym, ◌∙◌, [], ◌∷◌, ◌++◌, none, Bool, true, false, arith, ◌==◌, ◌&&◌, ◌||◌, Text,
  codes, is_empty, has_suffix, has_suffix-append_last, index_byte, Bool-cases, subst, ◌⊎◌, inl, inr,
  append-nil, append_assoc,
}
use cronet_go.Paths.{
  slash, before_query, with_slashes, normalize_browser_path, browser_grpc_path, trim_right,
  trim_prefix, trim_suffix, split, split_from, is_letter, is_digit, all_allowed, part_allowed,
  parts_allowed, valid_browser_grpc_path,
}

-- What the name of a service is made of: letters, digits, underscores and dots.
unfoldable pub in_name : ℕ → Bool
unfolding is_letter is_digit
in_name c = is_letter c || is_digit c || (c == b'.')

unfoldable pub is_name : Text → Bool
unfolding in_name
is_name [] = true
is_name (c ∷ cs) = in_name c && is_name cs

is_name-append : (s t : Text) → is_name s ≡ true → is_name t ≡ true → is_name (s ++ t) ≡ true
unfolding is_name
is_name-append [] t hs ht = ht
is_name-append (c ∷ cs) t hs ht = ground (arith, is_name-append cs t)

all_allowed-name : (s : Text) → all_allowed s ≡ true → is_name s ≡ true
unfolding is_name all_allowed
all_allowed-name [] h = refl
all_allowed-name (c ∷ cs) h = ground (arith, all_allowed-name cs)

part_allowed-name : (s : Text) → part_allowed s ≡ true → is_name s ≡ true
unfolding is_name part_allowed
part_allowed-name [] h = refl
part_allowed-name (c ∷ cs) h = ground (arith, all_allowed-name cs)

is_name_dot :
    (s t : Text) → part_allowed s ≡ true → is_name t ≡ true → is_name (s ++ b'.' ∷ t) ≡ true
is_name_dot s t hs ht =
    is_name-append s (b'.' ∷ t) (part_allowed-name s hs) (unfold is_name in (ground arith))

-- A text whose parts between dots are all allowed is a name.
parts_allowed-name :
    (s cur : Text) → parts_allowed (split_from b'.' s cur) ≡ true → is_name (cur ++ s) ≡ true
unfolding parts_allowed
parts_allowed-name [] cur h = rw append-nil (part_allowed-name cur (ground arith))
parts_allowed-name (c ∷ cs) cur h = ground (
  arith,
  is_name_dot cur cs,
  append_assoc cur (c ∷ []) cs,
  parts_allowed-name cs (cur ++ c ∷ []),
  parts_allowed-name cs [],
)

-- A name has no slash at its ends and no question mark.
name-ends :
    (c : ℕ) (cs : Text)
    → is_name (c ∷ cs) ≡ true
    → ((c == slash) ≡ false) × (has_suffix slash (c ∷ cs) ≡ false)
unfolding is_name
name-ends c [] h = (ground arith, ground arith)
name-ends c (d ∷ ds) h = (ground arith, (name-ends d ds (ground arith)).1)

name-no_query :
    (s t : Text) → is_name s ≡ true → index_byte t b'?' ≡ none → index_byte (s ++ t) b'?' ≡ none
unfolding is_name
name-no_query [] t h e = e
name-no_query (c ∷ cs) t h e = ground (arith, name-no_query cs t)

trim_right-name : (s : Text) → is_name s ≡ true → trim_right slash (s ++ slash ∷ []) ≡ s
unfolding is_name
trim_right-name [] h = ground arith
trim_right-name (c ∷ cs) h = ground (arith, trim_right-name cs)

-- The path that a valid one becomes: its name between slashes.
between : Text → Text
between s = slash ∷ s ++ slash ∷ []

grpc_of_between :
    (c : ℕ) (cs : Text)
    → is_name (c ∷ cs) ≡ true
    → browser_grpc_path (between (c ∷ cs)) ≡ slash ∷ (c ∷ cs) ++ codes "/Tun"
unfolding browser_grpc_path between
grpc_of_between c cs h = ground (arith, name-ends c cs h, trim_right-name (c ∷ cs) h)

-- The four ways to write one name as a path.
data Spells (s : Text) : Text → Type 0 where
  bare : Spells s s
  after : Spells s (slash ∷ s)
  before : Spells s (s ++ slash ∷ [])
  both : Spells s (slash ∷ s ++ slash ∷ [])

trim_suffix-cases : (p : Text) → (p ≡ trim_suffix slash p) ⊎ (p ≡ trim_suffix slash p ++ slash ∷ [])
trim_suffix-cases [] = inl refl
trim_suffix-cases (c ∷ []) = ground arith
trim_suffix-cases (c ∷ d ∷ ds) = elim (trim_suffix-cases (d ∷ ds)) [
  | inl e ↦ inl (ap (◌∷◌ c) e)
  | inr e ↦ inr (ap (◌∷◌ c) e)
]

trim_prefix-cases : (p : Text) → (p ≡ trim_prefix slash p) ⊎ (p ≡ slash ∷ trim_prefix slash p)
trim_prefix-cases [] = inl refl
trim_prefix-cases (c ∷ cs) = ground arith

bare_name : Text → Text
bare_name p = trim_suffix slash (trim_prefix slash p)

spells : (p : Text) → Spells (bare_name p) p
unfolding bare_name
spells p = elim (trim_prefix-cases p) [
  | inl e ↦ elim (trim_suffix-cases (trim_prefix slash p)) [
    | inl f ↦ subst (Spells _) (sym (e ∙ f)) bare
    | inr f ↦ subst (Spells _) (sym (e ∙ f)) before
  ]
  | inr e ↦ elim (trim_suffix-cases (trim_prefix slash p)) [
    | inl f ↦ subst (Spells _) (sym (e ∙ ap (◌∷◌ slash) f)) after
    | inr f ↦ subst (Spells _) (sym (e ∙ ap (◌∷◌ slash) f)) both
  ]
]

normalize_no_query :
    (c : ℕ) (cs : Text)
    → index_byte (c ∷ cs) b'?' ≡ none
    → normalize_browser_path (c ∷ cs) ≡ with_slashes (c ∷ cs)
unfolding normalize_browser_path before_query
normalize_no_query c cs h = rw h refl

normalize_spelt :
    (c : ℕ) (cs p : Text)
    → is_name (c ∷ cs) ≡ true
    → Spells (c ∷ cs) p
    → normalize_browser_path p ≡ between (c ∷ cs)
unfolding with_slashes between
normalize_spelt c cs p h w = by_form w
  where
    alone : index_byte (c ∷ cs) b'?' ≡ none
    alone =
        ap (λ (t : Text). index_byte t b'?') (sym (append-nil (c ∷ cs)))
        ∙ name-no_query (c ∷ cs) [] h refl

    ended : index_byte (c ∷ cs ++ slash ∷ []) b'?' ≡ none
    ended = name-no_query (c ∷ cs) (slash ∷ []) h (ground arith)

    by_form : {p : Text} → Spells (c ∷ cs) p → normalize_browser_path p ≡ between (c ∷ cs)
    by_form bare = rw (normalize_no_query c cs alone) (ground (arith, name-ends c cs h))
    by_form after =
        rw (normalize_no_query slash (c ∷ cs) (ground (arith, alone)))
          (ground (arith, name-ends c cs h))
    by_form before =
        rw (normalize_no_query c (cs ++ slash ∷ []) ended)
          (ground (arith, name-ends c cs h, has_suffix-append_last slash (c ∷ cs)))
    by_form both =
        rw (normalize_no_query slash (c ∷ cs ++ slash ∷ []) (ground (arith, ended)))
          (ground (arith, name-ends c cs h, has_suffix-append_last slash (slash ∷ c ∷ cs)))

-- What a base path must give: a path of one named service and the method Tun.
pub record Tunnel (path : Text) : Type 0 where
  pub service : Text
  pub named : is_name service ≡ true
  pub filled : is_empty service ≡ false
  pub spelt : path ≡ slash ∷ service ++ codes "/Tun"

spelt-Tunnel :
    (s p : Text)
    → Spells s p
    → parts_allowed (split b'.' s) ≡ true
    → Tunnel (browser_grpc_path (normalize_browser_path p))
unfolding parts_allowed part_allowed
spelt-Tunnel [] p w h = cc
spelt-Tunnel (c ∷ cs) p w h =
    let n = parts_allowed-name (c ∷ cs) [] h in
    record {
      service = c ∷ cs;
      named = n;
      filled = refl;
      spelt = ap browser_grpc_path (normalize_spelt c cs p n w) ∙ grpc_of_between c cs n;
    }

default-Tunnel : Tunnel (browser_grpc_path (slash ∷ []))
unfolding browser_grpc_path is_name in_name is_letter is_digit
default-Tunnel = record { service = codes "xhttp"; named = refl; filled = refl; spelt = refl }

-- A path that validBrowserGRPCPath allows, normalised, gives a gRPC path of one service and the method
-- Tun, and the name of the service is not empty and has only letters, digits, underscores and dots.
pub browser_grpc_path-Tunnel :
    (p : Text)
    → valid_browser_grpc_path p ≡ true
    → Tunnel (browser_grpc_path (normalize_browser_path p))
unfolding valid_browser_grpc_path bare_name normalize_browser_path before_query with_slashes
browser_grpc_path-Tunnel [] h = default-Tunnel
browser_grpc_path-Tunnel (c ∷ []) h = elim (Bool-cases (c == slash)) [
  | inl e ↦
      subst (λ (k : ℕ). Tunnel (browser_grpc_path (normalize_browser_path (k ∷ [])))) {x = slash}
        {y = c} (ground arith) default-Tunnel
  | inr e ↦ spelt-Tunnel _ (c ∷ []) (spells (c ∷ [])) (ground arith)
]
browser_grpc_path-Tunnel (c ∷ d ∷ ds) h =
    spelt-Tunnel _ (c ∷ d ∷ ds) (spells (c ∷ d ∷ ds)) (ground arith)
