-- ===== src/Client/Lifecycle.antt =====
-- The counters, the channels and the engines of a client, in any order of events.
use cronet_go.Base.{
  ℕ, zero, suc, ◌+◌, ◌≡◌, ◌≤◌, ◌<◌, refl, List, [], ◌∷◌, Option, none, some, Bool, true, false,
  if◌then◌else◌, arith, Error, ◌⊎◌, inl, inr, Option-cases,
}
use cronet_go.Conn.Channels.{once}
use cronet_go.Client.{
  State, created, starting, running, closing, closed, Starter, idle, making, failing, returned,
  Closer, waiting_operations, waiting_connections, waiting_proxies, finished, Client, new_client,
  start_begins, engine_made, start_ends, admit, create, dial_returns, close_all_begins,
  close_all_ends, mark_released, release, proxy_begins, proxy_ends, close_round, do_close, Event,
  starts, makes, start_over, admits, creates, returns, all_begins, all_ends, releases, proxy_up,
  proxy_down, closes, goes_on, step, run,
}

-- The tracked connections whose release has not run.
pub unreleased : List Bool → ℕ
unreleased [] = 0
unreleased (b ∷ bs) = (if b then 0 else 1) + unreleased bs

abbrev pub is_begun : State → Bool
is_begun created = false
is_begun starting = false
is_begun s = true

abbrev pub is_closed : State → Bool
is_closed closed = true
is_closed s = false

pub record Quiet (c : Client) : Type 0 where
  pub no_operation : c.operations ≡ 0
  pub no_connection : c.connections ≡ 0

pub record Sound (count : ℕ) (c : Client) : Type 0 where
  -- No wait group goes below zero, and no engine is used after its Destroy.
  pub proper : c.misused ≡ false
  pub operations_are : c.operations ≡ c.dials + c.opening + c.calls
  pub connections_are : c.connections ≡ c.dials + unreleased c.tracked
  pub made_are : c.made ≡ c.engines + c.destroys
  pub started_is : c.started ≡ once (is_begun c.state)
  pub closed_is : c.closed_ch ≡ once (is_closed c.state)
  pub created_is : c.state ≡ created → Quiet c × (c.proxies ≡ 0) × (c.made ≡ 0) × (c.starter ≡ idle)
  pub starting_is :
      c.state ≡ starting
      → Quiet c
        × (((c.starter ≡ making) × (c.made ≤ count) × (c.destroys ≡ 0))
            ⊎ ((c.starter ≡ failing) × (c.engines ≡ 0)))
  pub no_closer : is_begun c.state ≡ false → c.closer ≡ waiting_operations
  pub running_is : c.state ≡ running → (c.engines ≡ count) × (c.closer ≡ waiting_operations)
  pub closing_is :
      c.state ≡ closing
      → ((c.closer ≡ waiting_operations) × (c.engines ≡ count))
        ⊎ ((c.closer ≡ waiting_connections) × (c.engines ≡ count) × (c.operations ≡ 0))
        ⊎ ((c.closer ≡ waiting_proxies) × (c.engines ≡ 0) × Quiet c)
  pub closed_all : c.state ≡ closed → Quiet c × (c.engines ≡ 0) × (c.proxies ≡ 0)
  pub starter_in : (c.starter ≡ making) ⊎ (c.starter ≡ failing) → c.state ≡ starting

start_begins-Sound :
    (count : ℕ) (c : Client) (s : State)
    → c.state ≡ s
    → Sound count c
    → Sound count (start_begins s c).1
unfolding start_begins
start_begins-Sound count c created e v = ground arith
start_begins-Sound count c starting e v = v
start_begins-Sound count c running e v = v
start_begins-Sound count c closing e v = v
start_begins-Sound count c closed e v = v

engine_made-Sound :
    (count : ℕ) (ok : Bool) (c : Client) (p : Starter)
    → c.starter ≡ p
    → Sound count c
    → Sound count (engine_made count ok p c)
unfolding engine_made
engine_made-Sound count ok c making e v = ground arith
engine_made-Sound count ok c idle e v = v
engine_made-Sound count ok c failing e v = v
engine_made-Sound count ok c returned e v = v

start_ends-Sound :
    (count : ℕ) (c : Client) (p : Starter)
    → c.starter ≡ p
    → Sound count c
    → Sound count (start_ends count p c)
unfolding start_ends
start_ends-Sound count c making e v = ground arith
start_ends-Sound count c failing e v = ground arith
start_ends-Sound count c idle e v = v
start_ends-Sound count c returned e v = v

admit-Sound :
    (count : ℕ) (err : Option Error) (c : Client) → Sound count c → Sound count (admit err c).1
unfolding admit
admit-Sound count (some e) c v = ground arith
admit-Sound count none c v = ground arith

create-Sound : (count : ℕ) (c : Client) → 0 < count → Sound count c → Sound count (create c)
unfolding create unreleased
create-Sound count c p v = ground arith

dial_returns-Sound : (count : ℕ) (c : Client) → Sound count c → Sound count (dial_returns c)
unfolding dial_returns
dial_returns-Sound count c v = ground arith

close_all_begins-Sound : (count : ℕ) (c : Client) → Sound count c → Sound count (close_all_begins c)
unfolding close_all_begins
close_all_begins-Sound count c v = ground arith

close_all_ends-Sound :
    (count : ℕ) (c : Client) → 0 < count → Sound count c → Sound count (close_all_ends c)
unfolding close_all_ends
close_all_ends-Sound count c p v = ground arith

mark_released-unreleased :
    (n : ℕ) (bs cs : List Bool) → mark_released n bs ≡ some cs → unreleased bs ≡ suc (unreleased cs)
unfolding mark_released unreleased
mark_released-unreleased n [] cs e = ground arith
mark_released-unreleased zero (true ∷ bs) cs e = ground arith
mark_released-unreleased zero (false ∷ bs) cs e = ground arith
mark_released-unreleased (suc n) (b ∷ bs) cs e = elim (Option-cases (mark_released n bs)) [
  | inl f ↦ ground arith
  | inr (ds, f) ↦ ground (arith, mark_released-unreleased n bs ds f)
]

release-Sound : (count n : ℕ) (c : Client) → Sound count c → Sound count (release n c)
unfolding release
release-Sound count n c v = elim (Option-cases (mark_released n c.tracked)) [
  | inl e ↦ ground arith
  | inr (bs, e) ↦ ground (arith, mark_released-unreleased n c.tracked bs e)
]

proxy_begins-Sound : (count : ℕ) (c : Client) → Sound count c → Sound count (proxy_begins c)
unfolding proxy_begins
proxy_begins-Sound count c v = ground arith

proxy_ends-Sound : (count : ℕ) (c : Client) → Sound count c → Sound count (proxy_ends c)
unfolding proxy_ends
proxy_ends-Sound count c v = ground arith

close_round-Sound :
    (count : ℕ) (c : Client) (s : State)
    → c.state ≡ s
    → Sound count c
    → Sound count (close_round s c).1
unfolding close_round
close_round-Sound count c created e v = ground arith
close_round-Sound count c starting e v = v
close_round-Sound count c running e v = ground arith
close_round-Sound count c closing e v = v
close_round-Sound count c closed e v = v

do_close-Sound :
    (count : ℕ) (c : Client) (s : State) (p : Closer)
    → 0 < count
    → c.state ≡ s
    → c.closer ≡ p
    → Sound count c
    → Sound count (do_close s p c)
unfolding do_close
do_close-Sound count c closing waiting_operations z e f v = ground arith
do_close-Sound count c closing waiting_connections z e f v = ground arith
do_close-Sound count c closing waiting_proxies z e f v = ground arith
do_close-Sound count c closing finished z e f v = v
do_close-Sound count c created p z e f v = v
do_close-Sound count c starting p z e f v = v
do_close-Sound count c running p z e f v = v
do_close-Sound count c closed p z e f v = v

pub step-Sound :
    (count : ℕ) (c : Client) (e : Event) → 0 < count → Sound count c → Sound count (step count c e)
unfolding step
step-Sound count c starts z v = start_begins-Sound count c c.state refl v
step-Sound count c (makes ok) z v = engine_made-Sound count ok c c.starter refl v
step-Sound count c start_over z v = start_ends-Sound count c c.starter refl v
step-Sound count c (admits err) z v = admit-Sound count err c v
step-Sound count c creates z v = create-Sound count c z v
step-Sound count c returns z v = dial_returns-Sound count c v
step-Sound count c all_begins z v = close_all_begins-Sound count c v
step-Sound count c all_ends z v = close_all_ends-Sound count c z v
step-Sound count c (releases n) z v = release-Sound count n c v
step-Sound count c proxy_up z v = proxy_begins-Sound count c v
step-Sound count c proxy_down z v = proxy_ends-Sound count c v
step-Sound count c closes z v = close_round-Sound count c c.state refl v
step-Sound count c goes_on z v = do_close-Sound count c c.state c.closer z refl refl v

pub run-Sound :
    (count : ℕ) (c : Client) (es : List Event)
    → 0 < count
    → Sound count c
    → Sound count (run count c es)
unfolding run
run-Sound count c [] z v = v
run-Sound count c (e ∷ es) z v = run-Sound count (step count c e) es z (step-Sound count c e z v)

-- For any number of engines but zero, and whatever starts, dials, connections, proxies and closes
-- happen in any order: no wait group goes below zero and no engine is used after its Destroy; each
-- engine is destroyed at most once; `started` and `closed` are closed once, with the change of state
-- that they stand for; a client in use has all of its engines; and a closed client has no operation, no
-- connection, no proxy and no engine left.
pub run-new_client-Sound :
    (count : ℕ) (es : List Event) → 0 < count → Sound count (run count new_client es)
unfolding new_client unreleased
run-new_client-Sound count es z = run-Sound count new_client es z (ground arith)
