-- ===== src/Client.antt =====
-- naive_client.go: the life of a NaiveClient, from Start over dials and tracked connections to Close.
-- Each event is what one goroutine does without waiting; the waits are conditions under which an event
-- is possible, and an event that is not possible changes nothing.
pub mod Lifecycle
pub mod Closing
pub mod Engines
mod Examples
use cronet_go.Base.{
  ℕ, zero, suc, ◌+◌, ◌-◌, ◌%◌, ◌^◌, List, [], ◌∷◌, Option, none, some, Bool, true, false,
  if◌then◌else◌, not, ◌&&◌, ◌||◌, ◌==◌, ltb, Error, net_closed, failure,
}
use cronet_go.Conn.{Chan, live, shut, close_chan, is_shut}

pub data State : Type 0 where
  created : State
  starting : State
  running : State
  closing : State
  closed : State

-- Where Start stands, for the one goroutine that moved the state from created to starting.
pub data Starter : Type 0 where
  idle : Starter
  making : Starter
  failing : Starter
  returned : Starter

-- Where doClose stands, for the one goroutine that moved the state from running to closing.
pub data Closer : Type 0 where
  waiting_operations : Closer
  waiting_connections : Closer
  waiting_proxies : Closer
  finished : Closer

pub record Client : Type 0 where
  pub state : State
  pub started : Chan
  pub closed_ch : Chan
  -- The engines that are not destroyed, all that were made, and all that were destroyed.
  pub engines : ℕ
  pub made : ℕ
  pub destroys : ℕ
  -- The wait groups activeOperations, activeConnections and proxyWaitGroup.
  pub operations : ℕ
  pub connections : ℕ
  pub proxies : ℕ
  -- The dials that were admitted and have not come to CreateConn, those that have and have not
  -- returned, and the calls of CloseAllConnections.
  pub dials : ℕ
  pub opening : ℕ
  pub calls : ℕ
  -- For each tracked connection, whether its release has run.
  pub tracked : List Bool
  pub starter : Starter
  pub closer : Closer
  -- Whether an engine was used after it was destroyed, or a wait group went below zero.
  pub misused : Bool

unfoldable pub new_client : Client
new_client = record {
  state = created;
  started = live;
  closed_ch = live;
  engines = 0;
  made = 0;
  destroys = 0;
  operations = 0;
  connections = 0;
  proxies = 0;
  dials = 0;
  opening = 0;
  calls = 0;
  tracked = [];
  starter = idle;
  closer = waiting_operations;
  misused = false;
}

abbrev pub already_in_progress : Error
already_in_progress = failure 1

abbrev pub already_started : Error
already_started = failure 2

-- Start up to the compare-and-swap.
unfoldable pub start_begins : State → Client → Option Error × Client
start_begins created c = (none, record c { state = starting; starter = making })
start_begins starting c = (some already_in_progress, c)
start_begins running c = (some already_started, c)
start_begins closing c = (some net_closed, c)
start_begins closed c = (some net_closed, c)

-- How many engines Start makes.
unfoldable pub engine_count : ℕ → Bool → ℕ
engine_count concurrency single_engine =
    if ltb 1 concurrency && not single_engine then concurrency else 1

-- Every engine that is left is shut down and destroyed.
abbrev pub destroy_engines : Client → Client
destroy_engines c = record c { engines = 0; destroys = c.destroys + c.engines }

abbrev pub engine_added : Client → Client
engine_added c = record c { engines = suc c.engines; made = suc c.made }

-- One turn of Start's loop. An engine that cannot be started is destroyed in startEngine, and the ones
-- before it by the deferred function.
unfoldable pub engine_made : ℕ → Bool → Starter → Client → Client
engine_made count ok making c =
    if ltb c.made count
    then (if ok
        then engine_added c
        else record (destroy_engines (engine_added c)) { starter = failing })
    else c
engine_made count ok p c = c

-- The end of Start: the client runs once all engines are made; a failed Start has waited for the
-- proxies.
unfoldable pub start_ends : ℕ → Starter → Client → Client
start_ends count making c =
    if c.made == count
    then record c { state = running; started = close_chan c.started; starter = returned }
    else c
start_ends count failing c =
    if c.proxies == 0
    then record c {
      state = closed;
      started = close_chan c.started;
      closed_ch = close_chan c.closed_ch;
      starter = returned;
    }
    else c
start_ends count p c = c

-- Which case of the `select` in DialEarly is taken.
pub data Wait : Type 0 where
  by_started : Wait
  by_client : Wait
  by_ctx : Wait

abbrev pub is_running : State → Bool
is_running running = true
is_running s = false

-- DialEarly up to the lock, with what `c.ctx.Err` and `ctx.Err` give: nothing while it waits, or the
-- error with which it returns, if any.
unfoldable pub early_wait : Wait → Option Error → Option Error → Client → Option (Option Error)
early_wait by_started client_err err c =
    if is_shut c.started then some (if is_running c.state then none else some net_closed) else none
early_wait by_client none err c = none
early_wait by_client (some e) err c = some (some e)
early_wait by_ctx client_err none c = none
early_wait by_ctx client_err (some e) c = some (some e)

unfoldable pub early : Wait → Option Error → Option Error → State → Client → Option (Option Error)
unfolding early_wait
early b client_err err running c = some none
early b client_err err closed c = some (some net_closed)
early b client_err err closing c = some (some net_closed)
early b client_err err created c = early_wait b client_err err c
early b client_err err starting c = early_wait b client_err err c

-- DialEarly under the lock.
unfoldable pub admit : Option Error → Client → Option Error × Client
admit err c = if not (is_running c.state) then (some net_closed, c) else elim err [
  | some e ↦ (some e, c)
  | none ↦ (
    none,
    record c {
      operations = suc c.operations;
      connections = suc c.connections;
      dials = suc c.dials;
    },
  )
]

-- An engine is used.
abbrev pub engine_used : Client → Client
engine_used c = record c { misused = if c.engines == 0 then true else c.misused }

-- The use of an engine and the tracked connection.
unfoldable pub create : Client → Client
create c = if c.dials == 0 then c else record (engine_used c) {
  dials = c.dials - 1;
  opening = suc c.opening;
  tracked = false ∷ c.tracked;
}

-- WaitGroup.Done panics on a counter at 0.
abbrev pub operation_done : Client → Client
operation_done c = record c {
  operations = c.operations - 1;
  misused = if c.operations == 0 then true else c.misused;
}

-- The deferred `activeOperations.Done` of DialEarly, with or without an error of conn.Start.
unfoldable pub dial_returns : Client → Client
dial_returns c = if c.opening == 0 then c else operation_done (record c { opening = c.opening - 1 })

-- CloseAllConnections: what it does under the lock, then what it does after.
unfoldable pub close_all_begins : Client → Client
close_all_begins c =
    if is_running c.state
    then record c { operations = suc c.operations; calls = suc c.calls }
    else c

unfoldable pub close_all_ends : Client → Client
close_all_ends c =
    if c.calls == 0 then c else operation_done (engine_used (record c { calls = c.calls - 1 }))

-- trackedNaiveConn.release of the nth connection; sync.Once lets its body run once.
unfoldable pub mark_released : ℕ → List Bool → Option (List Bool)
mark_released n [] = none
mark_released zero (b ∷ bs) = if b then none else some (true ∷ bs)
mark_released (suc n) (b ∷ bs) = elim (mark_released n bs) [ none ↦ none | some cs ↦ some (b ∷ cs) ]

unfoldable pub release : ℕ → Client → Client
release n c = elim (mark_released n c.tracked) [
  | none ↦ c
  | some bs ↦ record c {
    tracked = bs;
    connections = c.connections - 1;
    misused = if c.connections == 0 then true else c.misused;
  }
]

-- A dialer callback of an engine that has not been destroyed starts a proxy goroutine.
unfoldable pub proxy_begins : Client → Client
proxy_begins c = if c.engines == 0 then c else record c { proxies = suc c.proxies }

unfoldable pub proxy_ends : Client → Client
proxy_ends c = if c.proxies == 0 then c else record c { proxies = c.proxies - 1 }

-- Close from one reading of the state on: what it returns, or a wait on `started` or `closed`.
pub data Closes : Type 0 where
  closes_with : Option Error → Closes
  waits_started : Closes
  waits_closed : Closes
  does_close : Closes

unfoldable pub close_round : State → Client → Closes × Client
close_round created c = (
  closes_with none,
  record c {
    state = closed;
    started = close_chan c.started;
    closed_ch = close_chan c.closed_ch;
    closer = finished;
  },
)
close_round starting c = (waits_started, c)
close_round running c = (does_close, record c { state = closing })
close_round closing c = (if is_shut c.closed_ch then closes_with none else waits_closed, c)
close_round closed c = (closes_with (some net_closed), c)

-- doClose, from one wait to the next.
unfoldable pub do_close : State → Closer → Client → Client
do_close closing waiting_operations c =
    if c.operations == 0 then record (engine_used c) { closer = waiting_connections } else c
do_close closing waiting_connections c =
    if c.connections == 0
    then record (destroy_engines (engine_used c)) { closer = waiting_proxies }
    else c
do_close closing waiting_proxies c =
    if c.proxies == 0
    then record c { state = closed; closed_ch = close_chan c.closed_ch; closer = finished }
    else c
do_close s p c = c

-- The engine of a dial: the index that the counter gives, as a 64-bit number that wraps around.
unfoldable pub engine_index : ℕ → ℕ → ℕ → ℕ
engine_index concurrency engines counter =
    if ltb 1 concurrency && ltb 1 engines then (counter + 1) % 2 ^ 64 % concurrency else 0

pub data Event : Type 0 where
  starts : Event
  makes : Bool → Event
  start_over : Event
  admits : Option Error → Event
  creates : Event
  returns : Event
  all_begins : Event
  all_ends : Event
  releases : ℕ → Event
  proxy_up : Event
  proxy_down : Event
  closes : Event
  goes_on : Event

unfoldable pub step : ℕ → Client → Event → Client
step count c starts = (start_begins c.state c).1
step count c (makes ok) = engine_made count ok c.starter c
step count c start_over = start_ends count c.starter c
step count c (admits err) = (admit err c).1
step count c creates = create c
step count c returns = dial_returns c
step count c all_begins = close_all_begins c
step count c all_ends = close_all_ends c
step count c (releases n) = release n c
step count c proxy_up = proxy_begins c
step count c proxy_down = proxy_ends c
step count c closes = (close_round c.state c).1
step count c goes_on = do_close c.state c.closer c

unfoldable pub run : ℕ → Client → List Event → Client
run count c [] = c
run count c (e ∷ es) = run count (step count c e) es
