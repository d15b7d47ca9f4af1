-- ===== src/Client/Closing.antt =====
-- What Close promises: nothing is admitted after it begins, and it finishes when the work is over.
use cronet_go.Base.{
  ℕ, ◌≡◌, ◌≤◌, ◌<◌, refl, List, [], ◌∷◌, Option, none, some, Bool, arith, Error, ◌⊎◌, inl, inr,
  Option-cases,
}
use cronet_go.Client.{
  State, created, starting, running, closing, closed, Starter, idle, making, failing, returned,
  Closer, waiting_operations, waiting_connections, waiting_proxies, finished, Client, start_begins,
  engine_made, start_ends, admit, create, dial_returns, close_all_begins, close_all_ends,
  mark_released, release, proxy_begins, proxy_ends, close_round, do_close, Event, starts, makes,
  start_over, admits, creates, returns, all_begins, all_ends, releases, proxy_up, proxy_down,
  closes, goes_on, step, run,
}
use cronet_go.Client.Lifecycle.{Sound, step-Sound}

-- The client has begun to close, and d is no busier than c.
pub record Winds (c d : Client) : Type 0 where
  pub ends : (d.state ≡ closing) ⊎ (d.state ≡ closed)
  pub operations : d.operations ≤ c.operations
  pub connections : d.connections ≤ c.connections

admit-Winds :
    (err : Option Error) (c : Client)
    → (c.state ≡ closing) ⊎ (c.state ≡ closed)
    → Winds c (admit err c).1
unfolding admit
admit-Winds none c e = ground arith
admit-Winds (some x) c e = ground arith

release-Winds :
    (n : ℕ) (c : Client) → (c.state ≡ closing) ⊎ (c.state ≡ closed) → Winds c (release n c)
unfolding release
release-Winds n c e = elim (Option-cases (mark_released n c.tracked)) [
  | inl f ↦ ground arith
  | inr (bs, f) ↦ ground arith
]

do_close-Winds :
    (c : Client) (s : State) (p : Closer)
    → (c.state ≡ closing) ⊎ (c.state ≡ closed)
    → Winds c (do_close s p c)
unfolding do_close
do_close-Winds c closing waiting_operations e = ground arith
do_close-Winds c closing waiting_connections e = ground arith
do_close-Winds c closing waiting_proxies e = ground arith
do_close-Winds c closing finished e = ground arith
do_close-Winds c created p e = ground arith
do_close-Winds c starting p e = ground arith
do_close-Winds c running p e = ground arith
do_close-Winds c closed p e = ground arith

start_begins-Winds :
    (c : Client) (s : State)
    → c.state ≡ s
    → (s ≡ closing) ⊎ (s ≡ closed)
    → Winds c (start_begins s c).1
unfolding start_begins
start_begins-Winds c closing e f = ground arith
start_begins-Winds c closed e f = ground arith
start_begins-Winds c created e f = ground arith
start_begins-Winds c starting e f = ground arith
start_begins-Winds c running e f = ground arith

close_round-Winds :
    (c : Client) (s : State)
    → c.state ≡ s
    → (s ≡ closing) ⊎ (s ≡ closed)
    → Winds c (close_round s c).1
unfolding close_round
close_round-Winds c closing e f = ground arith
close_round-Winds c closed e f = ground arith
close_round-Winds c created e f = ground arith
close_round-Winds c starting e f = ground arith
close_round-Winds c running e f = ground arith

-- Start has returned, and its goroutine does nothing more.
engine_made-Winds :
    (count : ℕ) (ok : Bool) (c : Client) (p : Starter)
    → c.starter ≡ p
    → Sound count c
    → (c.state ≡ closing) ⊎ (c.state ≡ closed)
    → Winds c (engine_made count ok p c)
unfolding engine_made
engine_made-Winds count ok c making e v f = ground arith
engine_made-Winds count ok c idle e v f = ground arith
engine_made-Winds count ok c failing e v f = ground arith
engine_made-Winds count ok c returned e v f = ground arith

start_ends-Winds :
    (count : ℕ) (c : Client) (p : Starter)
    → c.starter ≡ p
    → Sound count c
    → (c.state ≡ closing) ⊎ (c.state ≡ closed)
    → Winds c (start_ends count p c)
unfolding start_ends
start_ends-Winds count c making e v f = ground arith
start_ends-Winds count c failing e v f = ground arith
start_ends-Winds count c idle e v f = ground arith
start_ends-Winds count c returned e v f = ground arith

step-Winds :
    (count : ℕ) (c : Client) (e : Event)
    → Sound count c
    → (c.state ≡ closing) ⊎ (c.state ≡ closed)
    → Winds c (step count c e)
unfolding step create dial_returns close_all_begins close_all_ends proxy_begins proxy_ends
step-Winds count c starts v e = start_begins-Winds c c.state refl e
step-Winds count c (makes ok) v e = engine_made-Winds count ok c c.starter refl v e
step-Winds count c start_over v e = start_ends-Winds count c c.starter refl v e
step-Winds count c (admits err) v e = admit-Winds err c e
step-Winds count c creates v e = ground arith
step-Winds count c returns v e = ground arith
step-Winds count c all_begins v e = ground arith
step-Winds count c all_ends v e = ground arith
step-Winds count c (releases n) v e = release-Winds n c e
step-Winds count c proxy_up v e = ground arith
step-Winds count c proxy_down v e = ground arith
step-Winds count c closes v e = close_round-Winds c c.state refl e
step-Winds count c goes_on v e = do_close-Winds c c.state c.closer e

-- Once Close has begun, the state is closing or closed for ever, and no event brings a new operation or
-- a new connection.
pub run-Winds :
    (count : ℕ) (c : Client) (es : List Event)
    → 0 < count
    → Sound count c
    → (c.state ≡ closing) ⊎ (c.state ≡ closed)
    → Winds c (run count c es)
unfolding run
run-Winds count c [] z v e = ground arith
run-Winds count c (x ∷ es) z v e =
    let w = step-Winds count c x v e in
    ground (arith, w, run-Winds count (step count c x) es z (step-Sound count c x z v) w.ends)

-- doClose finishes: a closing client on which no operation, no connection and no proxy is left is
-- closed in three rounds, and then has destroyed all of its engines.
pub do_close-closed :
    (count : ℕ) (c : Client)
    → Sound count c
    → c.state ≡ closing
    → (c.operations ≡ 0) × (c.connections ≡ 0) × (c.proxies ≡ 0)
    → ((run count c (goes_on ∷ goes_on ∷ goes_on ∷ [])).state ≡ closed)
      × ((run count c (goes_on ∷ goes_on ∷ goes_on ∷ [])).destroys ≡ c.made)
unfolding run step do_close
do_close-closed count c v e (a, b, d) = elim (v.closing_is e) [
  | inl (f, g) ↦ rw (e, f, a, b, d) (refl, omega arith)
  | inr (inl (f, g, h)) ↦ rw (e, f, b, d) (refl, omega arith)
  | inr (inr (f, g, h)) ↦ rw (e, f, d) (refl, omega arith)
]
