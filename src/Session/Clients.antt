-- ===== src/Session/Clients.antt =====
-- browser_xhttp.go, BrowserXHTTPClient: sessions that are dialled and closed while the client is closed,
-- and the engine that they use.
pub mod Parts
pub mod Sound
use cronet_go.Base.{
  ℕ, zero, suc, ◌+◌, ◌-◌, List, [], ◌∷◌, ◌++◌, Option, none, some, Bool, true, false, not, ◌&&◌,
  ◌||◌, if◌then◌else◌, ◌==◌, Error, net_closed,
}

-- The parts of browserXHTTPConn.Close, in order.
pub data Part : Type 0 where
  sets_error cancels cancels_upload cancels_deadlines : Part
  closes_writer closes_post closes_reader awaits_upload removes : Part

abbrev pub close_parts : List Part
close_parts =
    sets_error ∷ cancels ∷ cancels_upload ∷ cancels_deadlines ∷ closes_writer ∷ closes_post
    ∷ closes_reader ∷ awaits_upload ∷ removes ∷ []

-- A session. `left` are the parts of its Close that are still to come, once it has begun; `registered`
-- tells whether it is in c.conns, and `awaited` whether the client's Close has still to close it.
-- `native` tells whether the requests of its download and of its streaming upload may still call the
-- engine, and `upload_ended` whether the goroutine of a packet upload, which calls it too, is over; a
-- session without one has no `uploadDone` to wait for.
pub record XSession : Type 0 where
  pub err : Option Error
  pub left : Option (List Part)
  pub upload_ended : Bool
  pub native : Bool
  pub registered : Bool
  pub awaited : Bool

-- How far the client's Close is.
pub data Stage : Type 0 where
  serving closing waiting_relays waiting_tasks finished : Stage

-- `after_destroy` counts the uses of the engine by sessions and relays after it was destroyed.
pub record XClient : Type 0 where
  pub stage : Stage
  pub sessions : List XSession
  pub owns_engine : Bool
  pub owns_executor : Bool
  pub engine_destroyed : Bool
  pub executor_destroyed : Bool
  pub relays : ℕ
  pub tasks : ℕ
  pub after_destroy : ℕ

unfoldable pub new_client : Bool → Bool → XClient
new_client owns_engine owns_executor = record {
  stage = serving;
  sessions = [];
  owns_engine = owns_engine;
  owns_executor = owns_executor;
  engine_destroyed = false;
  executor_destroyed = false;
  relays = 0;
  tasks = 0;
  after_destroy = 0;
}

abbrev pub new_session : Bool → XSession
new_session packet_up = record {
  err = none;
  left = none;
  upload_ended = not packet_up;
  native = true;
  registered = true;
  awaited = false;
}

abbrev pub set_error : Error → XSession → XSession
set_error e s = record s { err = elim s.err [ none ↦ some e | some f ↦ some f ] }

-- One part of Close. The download and the streaming upload call the engine no more once both are closed;
-- the wait for the upload goroutine is over when that has ended.
unfoldable pub perform : Part → List Part → XSession → XSession
perform sets_error rest s = record (set_error net_closed s) { left = some rest }
perform closes_reader rest s = record s { left = some rest; native = false }
perform awaits_upload rest s = if s.upload_ended then record s { left = some rest } else s
perform removes rest s = record s { left = some rest; registered = false }
perform part rest s = record s { left = some rest }

-- The next part of the Close of a session, which begins with the first caller; the others wait.
unfoldable pub close_next : Option (List Part) → XSession → XSession
unfolding perform
close_next none s = record s { left = some close_parts }
close_next (some []) s = s
close_next (some (p ∷ rest)) s = perform p rest s

abbrev pub is_done : Option (List Part) → Bool
is_done (some []) = true
is_done other = false

-- The client's Close at one of its sessions: it has been waited for when its Close is over.
unfoldable pub await_session : XSession → XSession
await_session s = if is_done s.left then record s { awaited = false } else s

abbrev pub snapshot : List XSession → List XSession
snapshot [] = []
snapshot (s ∷ ss) = record s { awaited = s.registered } ∷ snapshot ss

abbrev pub any_awaited : List XSession → Bool
any_awaited [] = false
any_awaited (s ∷ ss) = s.awaited || any_awaited ss

unfoldable pub at_session : ℕ → (XSession → XSession) → List XSession → List XSession
at_session n f [] = []
at_session zero f (s ∷ ss) = f s ∷ ss
at_session (suc n) f (s ∷ ss) = s ∷ at_session n f ss

-- The client's Close goes on: from the snapshot to the sessions, to the engine, to the relays, to the
-- tasks. `awaits` is what it waits for at its stage.
unfoldable pub advance : XClient → Stage → XClient
advance c serving = record c { stage = closing; sessions = snapshot c.sessions }
advance c closing =
    if any_awaited c.sessions
    then c
    else record c { stage = waiting_relays; engine_destroyed = c.owns_engine }
advance c waiting_relays = if c.relays == 0 then record c { stage = waiting_tasks } else c
advance c waiting_tasks =
    if not c.owns_executor
    then record c { stage = finished }
    else (if c.tasks == 0 then record c { stage = finished; executor_destroyed = true } else c)
advance c finished = c

-- What happens: DialContext registers a session, with or without a packet upload, under the lock, if the
-- client is not closed; a session is
-- failed, its upload goroutine ends, its Close goes on, its requests call the engine; the client's Close
-- goes on or looks at a session; relays and tasks begin and end.
pub data XEvent : Type 0 where
  advances relay_begins relay_ends task_begins task_ends : XEvent
  dials : Bool → XEvent
  fails : ℕ → Error → XEvent
  ends_upload goes_on uses_engine waits_for : ℕ → XEvent

abbrev pub is_serving : Stage → Bool
is_serving serving = true
is_serving other = false

-- A call of the engine by the requests of the n-th session or by its upload goroutine, if one of them may
-- still make one.
unfoldable pub uses : ℕ → List XSession → ℕ
uses n [] = 0
uses zero (s ∷ ss) = if s.native || not s.upload_ended then 1 else 0
uses (suc n) (s ∷ ss) = uses n ss

unfoldable pub xstep : XClient → XEvent → XClient
unfolding close_next await_session advance uses at_session
xstep c (dials packet_up) =
    if is_serving c.stage
    then record c { sessions = c.sessions ++ (new_session packet_up ∷ []) }
    else c
xstep c advances = advance c c.stage
xstep c relay_begins = if c.engine_destroyed then c else record c { relays = c.relays + 1 }
xstep c relay_ends = record c { relays = c.relays - 1 }
xstep c task_begins =
    if c.executor_destroyed || c.engine_destroyed then c else record c { tasks = c.tasks + 1 }
xstep c task_ends = record c { tasks = c.tasks - 1 }
xstep c (fails n e) = record c { sessions = at_session n (set_error e) c.sessions }
xstep c (ends_upload n) = record c {
  sessions = at_session n (λ s. record s { upload_ended = true }) c.sessions;
}
xstep c (goes_on n) = record c { sessions = at_session n (λ s. close_next s.left s) c.sessions }
xstep c (waits_for n) = record c { sessions = at_session n await_session c.sessions }
xstep c (uses_engine n) =
    if c.engine_destroyed
    then record c { after_destroy = c.after_destroy + uses n c.sessions }
    else c

unfoldable pub xrun : XClient → List XEvent → XClient
unfolding xstep
xrun c [] = c
xrun c (e ∷ es) = xrun (xstep c e) es
