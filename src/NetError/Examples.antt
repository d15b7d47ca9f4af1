-- ===== src/NetError/Examples.antt =====
-- The search in the table of network errors at a concrete table, and tests.
use cronet_go.Base.{
  ℕ, zero, suc, ◌<◌, ◌≡◌, refl, subst, List, [], ◌∷◌, some, true, false, arith, codes, get_elem?,
  negsuc, ◌≤ℤ◌, decimal,
}
use cronet_go.NetError.{
  Entry, lookup_net_error, search, at_least, with_code, error_message, error_name,
  error_description, is_error, to_net_error, deadline_exceeded, econnreset, Failure, aborted,
  connection_reset,
}
use cronet_go.NetError.Lookup.{Sorted, lookup_net_error-describes}

abbrev reset : Entry
reset = record {
  code = negsuc 100;
  name = codes "ERR_CONNECTION_RESET";
  message = codes "connection reset";
  description = [];
}

abbrev abort : Entry
abort = record {
  code = negsuc 2;
  name = codes "ERR_ABORTED";
  message = codes "aborted";
  description = [];
}

abbrev two_errors : List Entry
two_errors = reset ∷ abort ∷ []

apart : ¬ (abort.code ≤ℤ reset.code)
apart h = omega (arith, h)

two_rise :
    (i j : ℕ) (x y : Entry)
    → i < j
    → get_elem? two_errors i ≡ some x
    → get_elem? two_errors j ≡ some y
    → ¬ (y.code ≤ℤ x.code)
two_rise zero zero x y lt e f = absurd (omega arith)
two_rise zero (suc zero) x y lt e f =
    let at_first : reset ≡ x = cc e in
    let at_second : abort ≡ y = cc f in
    subst (λ (t : Entry). ¬ (y.code ≤ℤ t.code)) at_first
      (subst (λ (t : Entry). ¬ (t.code ≤ℤ reset.code)) at_second apart)
two_rise zero (suc (suc j)) x y lt e f = cc f
two_rise (suc i) zero x y lt e f = absurd (omega arith)
two_rise (suc i) (suc zero) x y lt e f = absurd (omega arith)
two_rise (suc i) (suc (suc j)) x y lt e f = cc f

two_errors-Sorted : Sorted two_errors
two_errors-Sorted = record { rises = two_rise }

lookup_net_error-describes_example :
    (lookup_net_error two_errors (negsuc 2) ≡ some abort)
    × (error_message two_errors (negsuc 2) ≡ codes "aborted")
    × (error_name two_errors (negsuc 2) ≡ codes "ERR_ABORTED")
    × (error_description two_errors (negsuc 2) ≡ [])
lookup_net_error-describes_example =
    lookup_net_error-describes two_errors two_errors-Sorted 1 abort refl

unknown_error :
    (error_name two_errors (negsuc 6) ≡ codes "ERR_UNKNOWN_7")
    × (error_message two_errors (negsuc 6) ≡ codes "network error -7")
unfolding error_name error_message lookup_net_error search at_least with_code decimal
unknown_error = (refl, refl)

abbrev failed_by_reset : Failure
failed_by_reset = record {
  canceled = false;
  deadline = false;
  net_timeout = false;
  errno = some econnreset;
}

go_errors :
    (to_net_error (some failed_by_reset) ≡ connection_reset)
    × (is_error (to_net_error (some failed_by_reset)) econnreset ≡ true)
    × (is_error aborted deadline_exceeded ≡ false)
unfolding to_net_error is_error
go_errors = (refl, refl, refl)
