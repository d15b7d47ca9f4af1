-- ===== src/Paths.antt =====
-- browser_xhttp.go and browser_xhttp_grpc.go: the paths of requests, as byte texts.
pub mod Shape
pub mod Service
mod Examples
use cronet_go.Base.{
  ℕ, suc, List, [], ◌∷◌, ◌++◌, Option, none, some, Bool, true, false, not, ◌&&◌, ◌||◌,
  if◌then◌else◌, ◌==◌, ltb, leb, take, drop, Text, codes, is_empty, has_prefix, has_suffix,
  index_byte,
}

abbrev pub slash : ℕ
slash = b'/'

unfoldable pub before_query : Text → Option ℕ → Text
before_query p none = p
before_query p (some i) = take i p

unfoldable pub with_slashes : Text → Text
with_slashes p =
    let p = if not (has_prefix slash p) then slash ∷ p else p in
    if not (has_suffix slash p) then p ++ slash ∷ [] else p

unfoldable pub normalize_browser_path : Text → Text
unfolding before_query with_slashes
normalize_browser_path p =
    if is_empty p then slash ∷ [] else with_slashes (before_query p (index_byte p b'?'))

unfoldable pub cut_at : Text → Option ℕ → Text × Text
cut_at p none = (p, [])
cut_at p (some i) = (take i p, drop (suc i) p)

unfoldable pub split_browser_path : Text → Text × Text
unfolding cut_at
split_browser_path p = cut_at p (index_byte p b'?')

unfoldable pub browser_append_path : Text → Text → Text
browser_append_path p segment = if has_suffix slash p then p ++ segment else p ++ slash ∷ segment

-- strings.TrimLeft, TrimRight and Trim with a cutset of one byte.
abbrev pub trim_left : ℕ → Text → Text
trim_left c [] = []
trim_left c (x ∷ xs) = if x == c then trim_left c xs else x ∷ xs

abbrev pub trim_right : ℕ → Text → Text
trim_right c [] = []
trim_right c (x ∷ xs) =
    let rest = trim_right c xs in if is_empty rest && (x == c) then [] else x ∷ rest

unfoldable pub browser_grpc_path : Text → Text
browser_grpc_path base =
    let service = trim_right slash (trim_left slash base) in
    let service = if is_empty service then codes "xhttp" else service in
    (slash ∷ service) ++ codes "/Tun"

-- strings.TrimPrefix and TrimSuffix with one byte.
abbrev pub trim_prefix : ℕ → Text → Text
trim_prefix c [] = []
trim_prefix c (x ∷ xs) = if x == c then xs else x ∷ xs

abbrev pub trim_suffix : ℕ → Text → Text
trim_suffix c [] = []
trim_suffix c (x ∷ []) = if x == c then [] else x ∷ []
trim_suffix c (x ∷ y ∷ ys) = x ∷ trim_suffix c (y ∷ ys)

-- strings.Split at one byte: the part before the first one, and the parts after it.
abbrev pub split_from : ℕ → Text → Text → List Text
split_from c [] cur = cur ∷ []
split_from c (x ∷ xs) cur = elim (x == c) [
  | true ↦ cur ∷ split_from c xs []
  | false ↦ split_from c xs (cur ++ x ∷ [])
]

abbrev pub split : ℕ → Text → List Text
split c s = split_from c s []

unfoldable pub is_letter : ℕ → Bool
is_letter ch = leb b'a' ch && leb ch b'z' || leb b'A' ch && leb ch b'Z' || (ch == b'_')

unfoldable pub is_digit : ℕ → Bool
is_digit ch = leb b'0' ch && leb ch b'9'

unfoldable pub all_allowed : Text → Bool
unfolding is_letter is_digit
all_allowed [] = true
all_allowed (ch ∷ rest) = (is_letter ch || is_digit ch) && all_allowed rest

-- The loop over one part: a digit is allowed after the first byte.
unfoldable pub part_allowed : Text → Bool
unfolding is_letter all_allowed
part_allowed [] = false
part_allowed (ch ∷ rest) = is_letter ch && all_allowed rest

unfoldable pub parts_allowed : List Text → Bool
unfolding part_allowed
parts_allowed [] = true
parts_allowed (part ∷ rest) = part_allowed part && parts_allowed rest

unfoldable pub valid_browser_grpc_path : Text → Bool
unfolding parts_allowed
valid_browser_grpc_path path =
    if is_empty path || is_empty (trim_prefix slash path) && has_prefix slash path
    then true
    else parts_allowed (split b'.' (trim_suffix slash (trim_prefix slash path)))
