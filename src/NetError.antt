-- ===== src/NetError.antt =====
-- net_error.go: the errors of Chromium by their codes, their table, and the errors of Go that they stand
-- for. The generated table is a parameter.
pub mod Lookup
mod Examples
use cronet_go.Base.{
  ℕ, zero, suc, ◌+◌, ◌/◌, List, [], ◌∷◌, Option, none, some, Bool, true, false, ◌&&◌, ◌||◌,
  if◌then◌else◌, ltb, leb, length, get_elem?, Text, decimal, codes, ◌++◌, ℤ, pos, negsuc, le_int,
}

pub record Entry : Type 0 where
  pub code : ℤ
  pub name : Text
  pub message : Text
  pub description : Text

abbrev pub int_eq : ℤ → ℤ → Bool
int_eq a b = le_int a b && le_int b a

-- sort.Search: the least index at which a test that stays true is true, by halves, with fuel.
unfoldable pub search : (ℕ → Bool) → ℕ → ℕ → ℕ → ℕ
search f zero i j = i
search f (suc n) i j = elim (ltb i j) [
  | false ↦ i
  | true ↦ elim (f ((i + j) / 2)) [
    | true ↦ search f n i ((i + j) / 2)
    | false ↦ search f n ((i + j) / 2 + 1) j
  ]
]

at_least : ℤ → Option Entry → Bool
at_least e none = true
at_least e (some x) = le_int e x.code

with_code : ℤ → Option Entry → Option Entry
with_code e none = none
with_code e (some x) = if int_eq x.code e then some x else none

-- strconv.Itoa.
abbrev pub signed_decimal : ℤ → Text
signed_decimal (pos n) = decimal n
signed_decimal (negsuc n) = b'-' ∷ decimal (suc n)

abbrev pub negate : ℤ → ℤ
negate (pos zero) = pos zero
negate (pos (suc n)) = negsuc n
negate (negsuc n) = pos (suc n)

unfoldable pub lookup_net_error : List Entry → ℤ → Option Entry
unfolding search at_least with_code
lookup_net_error table e =
    with_code e (
      get_elem? table
        (search (λ i. at_least e (get_elem? table i)) (length table) 0 (length table)))

-- NetError.Error, Name and Description.
unfoldable pub error_message : List Entry → ℤ → Text
error_message table e = elim (lookup_net_error table e) [
  | some info ↦ info.message
  | none ↦ codes "network error " ++ signed_decimal e
]

unfoldable pub error_name : List Entry → ℤ → Text
error_name table e = elim (lookup_net_error table e) [
  | some info ↦ info.name
  | none ↦ codes "ERR_UNKNOWN_" ++ signed_decimal (negate e)
]

unfoldable pub error_description : List Entry → ℤ → Text
error_description table e = elim (lookup_net_error table e) [
  | some info ↦ info.description
  | none ↦ []
]

-- The errors of Go that NetError.Is and toNetError look at.
pub data GoError : Type 0 where
  err_closed deadline_exceeded : GoError
  econnrefused econnreset econnaborted etimedout enetunreach ehostunreach enotconn : GoError

abbrev pub aborted : ℤ
aborted = negsuc 2

abbrev pub timed_out : ℤ
timed_out = negsuc 6

abbrev pub socket_not_connected : ℤ
socket_not_connected = negsuc 14

abbrev pub connection_closed : ℤ
connection_closed = negsuc 99

abbrev pub connection_reset : ℤ
connection_reset = negsuc 100

abbrev pub connection_refused : ℤ
connection_refused = negsuc 101

abbrev pub connection_aborted : ℤ
connection_aborted = negsuc 102

abbrev pub connection_failed : ℤ
connection_failed = negsuc 103

abbrev pub address_unreachable : ℤ
address_unreachable = negsuc 108

abbrev pub connection_timed_out : ℤ
connection_timed_out = negsuc 117

-- NetError.Is with an error of Go.
unfoldable pub is_error : ℤ → GoError → Bool
is_error e err_closed =
    int_eq e connection_closed
    || int_eq e socket_not_connected
    || int_eq e connection_reset
    || int_eq e connection_aborted
is_error e deadline_exceeded = int_eq e timed_out || int_eq e connection_timed_out
is_error e econnrefused = int_eq e connection_refused
is_error e econnreset = int_eq e connection_reset
is_error e econnaborted = int_eq e connection_aborted
is_error e etimedout = int_eq e connection_timed_out
is_error e enetunreach = int_eq e address_unreachable
is_error e ehostunreach = int_eq e address_unreachable
is_error e enotconn = int_eq e socket_not_connected

-- NetError.Timeout.
unfoldable pub is_timeout : ℤ → Bool
is_timeout e = int_eq e timed_out || int_eq e connection_timed_out

-- What toNetError asks of an error, in its order: whether it is context.Canceled, whether it is
-- context.DeadlineExceeded, whether it is a net.Error that is a timeout, and the errno of a
-- os.SyscallError in it, if it is one of the listed ones.
pub record Failure : Type 0 where
  pub canceled : Bool
  pub deadline : Bool
  pub net_timeout : Bool
  pub errno : Option GoError

of_errno : Option GoError → ℤ
of_errno (some econnrefused) = connection_refused
of_errno (some etimedout) = connection_timed_out
of_errno (some enetunreach) = address_unreachable
of_errno (some ehostunreach) = address_unreachable
of_errno (some econnreset) = connection_reset
of_errno (some econnaborted) = connection_aborted
of_errno other = connection_failed

unfoldable pub to_net_error : Option Failure → ℤ
unfolding of_errno
to_net_error none = pos 0
to_net_error (some f) =
    if f.canceled
    then aborted
    else (if f.deadline || f.net_timeout then connection_timed_out else of_errno f.errno)
