-- ===== src/Paths/Shape.antt =====
-- normalizeBrowserPath and splitBrowserPath: the shape of a base path, and the parts of a target.
use cronet_go.Base.{
  ℕ, zero, suc, ◌≡◌, refl, ◌⊎◌, inl, inr, [], ◌∷◌, ◌++◌, Option, none, some, true, arith, take,
  drop, Text, has_prefix, has_suffix, index_byte, has_suffix-append_last,
}
use cronet_go.Paths.{
  slash, before_query, with_slashes, cut_at, normalize_browser_path, split_browser_path,
}

abbrev pub question : ℕ
question = b'?'

-- A base path begins and ends with a slash and has no query.
pub record IsBase (p : Text) : Type 0 where
  pub begins : has_prefix slash p ≡ true
  pub ends : has_suffix slash p ≡ true
  pub no_query : index_byte p question ≡ none

before_query-no_query :
    (p : Text) → index_byte (before_query p (index_byte p question)) question ≡ none
unfolding before_query
before_query-no_query [] = refl
before_query-no_query (x ∷ xs) = ground (arith, before_query-no_query xs)

index_byte-append_slash :
    (p : Text) → index_byte p question ≡ none → index_byte (p ++ slash ∷ []) question ≡ none
index_byte-append_slash [] h = refl
index_byte-append_slash (x ∷ xs) h = ground (arith, index_byte-append_slash xs)

has_prefix-append : (p q : Text) → has_prefix slash p ≡ true → has_prefix slash (p ++ q) ≡ true
has_prefix-append [] q h = cc
has_prefix-append (x ∷ xs) q h = h

with_slashes-IsBase : (p : Text) → index_byte p question ≡ none → IsBase (with_slashes p)
unfolding with_slashes
with_slashes-IsBase p h = ground (
  arith,
  has_suffix-append_last slash p,
  has_suffix-append_last slash (slash ∷ p),
  index_byte-append_slash p h,
  index_byte-append_slash (slash ∷ p),
  has_prefix-append p (slash ∷ []),
)

with_slashes_fixed : (p : Text) → IsBase p → with_slashes p ≡ p
unfolding with_slashes
with_slashes_fixed p b = rw (b.begins, b.ends) refl

pub normalize_browser_path-IsBase : (p : Text) → IsBase (normalize_browser_path p)
unfolding normalize_browser_path
normalize_browser_path-IsBase [] = record { begins = refl; ends = refl; no_query = refl }
normalize_browser_path-IsBase (x ∷ xs) =
    with_slashes-IsBase (before_query (x ∷ xs) (index_byte (x ∷ xs) question))
      (before_query-no_query (x ∷ xs))

-- A base path is left alone.
pub normalize_browser_path_fixed : (p : Text) → IsBase p → normalize_browser_path p ≡ p
unfolding normalize_browser_path before_query
normalize_browser_path_fixed [] b = cc (b.begins)
normalize_browser_path_fixed (x ∷ xs) b = rw b.no_query (with_slashes_fixed (x ∷ xs) b)

-- Every path, normalised, begins and ends with a slash and has no query, and normalising it again
-- leaves it alone.
pub normalize_browser_path_settles :
    (p : Text)
    → IsBase (normalize_browser_path p)
      × (normalize_browser_path (normalize_browser_path p) ≡ normalize_browser_path p)
normalize_browser_path_settles p =
    let b = normalize_browser_path-IsBase p in (b, normalize_browser_path_fixed _ b)

cut_found :
    (p : Text) (i : ℕ) → index_byte p question ≡ some i → take i p ++ question ∷ drop (suc i) p ≡ p
cut_found [] i h = cc
cut_found (x ∷ xs) zero h = ground arith
cut_found (x ∷ xs) (suc i) h = ground (arith, cut_found xs i)

-- The part before the first question mark has none.
front_no_query :
    (p : Text) (i : ℕ) → index_byte p question ≡ some i → index_byte (take i p) question ≡ none
front_no_query [] i h = cc
front_no_query (x ∷ xs) zero h = refl
front_no_query (x ∷ xs) (suc i) h = ground (arith, front_no_query xs i)

-- What a target is cut into: without a question mark it is all path, and otherwise path and query with
-- the first question mark between them.
pub record IsCut (p path query : Text) : Type 0 where
  pub path_plain : index_byte path question ≡ none
  pub joined : ((path ≡ p) × (query ≡ [])) ⊎ (path ++ question ∷ query ≡ p)

cut_at-IsCut :
    (p : Text) (o : Option ℕ) → index_byte p question ≡ o → IsCut p (cut_at p o).0 (cut_at p o).1
unfolding cut_at
cut_at-IsCut p none h = record { path_plain = h; joined = inl (refl, refl) }
cut_at-IsCut p (some i) h = record {
  path_plain = front_no_query p i h;
  joined = inr (cut_found p i h);
}

pub split_browser_path_cuts : (p : Text) → IsCut p (split_browser_path p).0 (split_browser_path p).1
unfolding split_browser_path
split_browser_path_cuts p = cut_at-IsCut p (index_byte p question) refl
