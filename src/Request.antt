-- ===== src/Request.antt =====
-- streaming_request.go: a streaming URL request on its serial executor. Native callbacks, uploads that
-- are over and the request's own work are tasks of one queue, which run one at a time; reads and cancels
-- come from other goroutines between them.
pub mod Queue
pub mod Lifecycle
pub mod Runs
mod Examples
use cronet_go.Base.{
  ℕ, zero, suc, ◌+◌, ◌-◌, List, [], ◌∷◌, ◌++◌, Option, none, some, Bool, true, false, if◌then◌else◌,
  not, ◌&&◌, ◌||◌, ◌==◌, take, drop, Error, eof, failure,
}
use cronet_go.Conn.{Chan, live, close_chan}

abbrev pub start_failed : Error
start_failed = failure 31

abbrev pub read_failed : Error
read_failed = failure 32

abbrev pub redirect_failed : Error
redirect_failed = failure 33

abbrev pub unexpected_redirect : Error
unexpected_redirect = failure 34

abbrev pub bad_status : Error
bad_status = failure 35

-- What a native callback says. A redirect carries what `onRedirect` answers, if there is one.
pub data Callback : Type 0 where
  redirected : Option Bool → Callback
  -- Whether `onResponse` is set, and whether the status is 200.
  response_started : Bool → Bool → Callback
  read_completed : List ℕ → Callback
  -- The native side asks the upload for bytes or for a rewind.
  upload_asked : Callback

pub data Task : Type 0 where
  starts : Task
  start_read : Task
  cancels : Error → Task
  cleans_up : Task
  upload_over : Task
  callback : Callback → Task
  -- OnSucceeded, OnFailed or OnCanceled.
  terminal_callback : Error → Task

pub record Native : Type 0 where
  pub cancels : ℕ
  pub destroys : ℕ
  pub misused : Bool

pub record Request : Type 0 where
  pub native : Native
  pub queue : List Task
  pub started : Bool
  pub terminal : Bool
  pub read_pending : Bool
  pub active_uploads : ℕ
  -- The upload goroutines that have not submitted their task yet.
  pub uploads : ℕ
  pub cleanup_queued : Bool
  pub err : Option Error
  pub pending : List ℕ
  pub done : Chan
  -- The calls of `onDone`.
  pub done_calls : ℕ

abbrev pub no_bytes : List ℕ → Bool
no_bytes [] = true
no_bytes (x ∷ xs) = false

-- newStreamingRequest, where InitWithParams succeeds.
unfoldable pub new_request : Request
new_request = record {
  native = record { cancels = 0; destroys = 0; misused = false };
  queue = [];
  started = false;
  terminal = false;
  read_pending = false;
  active_uploads = 0;
  uploads = 0;
  cleanup_queued = false;
  err = none;
  pending = [];
  done = live;
  done_calls = 0;
}

abbrev pub or_keep : Option Error → Error → Option Error
or_keep none e = some e
or_keep (some x) e = some x

abbrev pub is_some {ℓ} : {A : Type ℓ} → Option A → Bool
is_some none = false
is_some (some a) = true

-- submit.
abbrev pub submit : Task → Request → Request
submit t r = record r { queue = r.queue ++ (t ∷ []) }

-- A native call; one on a destroyed request is recorded.
abbrev pub touched : Native → Native
touched n = record n { misused = if n.destroys == 0 then n.misused else true }

abbrev pub native_cancel : Native → Native
native_cancel n = record (touched n) { cancels = suc n.cancels }

unfoldable pub cleanup : Request → Request
cleanup r =
    if not r.terminal || (not (r.active_uploads == 0) || r.cleanup_queued)
    then r
    else submit cleans_up (record r { cleanup_queued = true })

unfoldable pub finish : Error → Request → Request
finish e r = if r.terminal then r else cleanup (record r { terminal = true; err = or_keep r.err e })

-- fail; stopping the upload is left out.
unfoldable pub fail : Error → Request → Request
fail e r = record r { err = or_keep r.err e; native = native_cancel r.native }

-- startRead; `accepted` is whether the native Read starts.
unfoldable pub start_reading : Bool → Request → Request
start_reading accepted r =
    if r.terminal || (r.read_pending || not (no_bytes r.pending && not (is_some r.err)))
    then r
    else if accepted
    then record r { read_pending = true; native = touched r.native }
    else fail read_failed (record r { native = touched r.native })

unfoldable pub starting : Bool → Request → Request
starting accepted r =
    if r.terminal || r.started
    then r
    else if accepted
    then record r { started = true; native = touched r.native }
    else finish start_failed (record r { native = touched r.native })

unfoldable pub cancelling : Error → Request → Request
cancelling e r =
    if r.terminal
    then r
    else if r.started
    then record r { native = native_cancel r.native }
    else finish e r

-- The function that cleanup submits.
unfoldable pub cleaning_up : Request → Request
cleaning_up r = record r {
  native = record (touched r.native) { destroys = suc r.native.destroys };
  done = close_chan r.done;
  done_calls = suc r.done_calls;
}

-- `accepted` is what the native call that the callback makes, if any, answers.
unfoldable pub on_callback : Bool → Callback → Request → Request
on_callback accepted (redirected none) r = fail unexpected_redirect r
on_callback accepted (redirected (some true)) r =
    if accepted
    then record r { native = touched r.native }
    else fail redirect_failed (record r { native = touched r.native })
on_callback accepted (redirected (some false)) r = fail eof r
on_callback accepted (response_started true ok) r = start_reading accepted r
on_callback accepted (response_started false ok) r =
    if ok then start_reading accepted r else fail bad_status r
on_callback accepted (read_completed []) r =
    submit start_read (record r { read_pending = false; pending = [] })
on_callback accepted (read_completed (x ∷ bytes)) r = record r {
  read_pending = false;
  pending = x ∷ bytes;
}
on_callback accepted upload_asked r = record r {
  active_uploads = suc r.active_uploads;
  uploads = suc r.uploads;
}

-- One task of the queue, which submit's loop has taken off it.
unfoldable pub run_task : Bool → Task → Request → Request
run_task accepted starts r = starting accepted r
run_task accepted start_read r = start_reading accepted r
run_task accepted (cancels e) r = cancelling e r
run_task accepted cleans_up r = cleaning_up r
run_task accepted upload_over r = cleanup (record r { active_uploads = r.active_uploads - 1 })
run_task accepted (callback c) r = on_callback accepted c r
run_task accepted (terminal_callback e) r = finish e r

-- cancelWithError.
unfoldable pub cancel_with_error : Error → Request → Request
cancel_with_error e r = if is_some r.err then r else submit (cancels e) (record r { err = some e })

-- The next native read is asked for when the last pending byte is taken.
unfoldable pub taken : Request → Request
taken r = if no_bytes r.pending && not (is_some r.err) then submit start_read r else r

-- One round of readContext for a slice of n bytes, after its first tests: the bytes, the error, or a
-- wait.
unfoldable pub read_round : ℕ → Request → Option (List ℕ × Option Error) × Request
read_round n r = elim r.pending [
  | x ∷ xs ↦ (some (take n (x ∷ xs), none), taken (record r { pending = drop n (x ∷ xs) }))
  | [] ↦ elim r.err [ some e ↦ (some ([], some e), r) | none ↦ (none, r) ]
]

pub record System : Type 0 where
  pub request : Request
  -- The native side has posted its terminal callback, which is its last.
  pub over : Bool

-- Calls of start, cancel and read, the native side, an upload goroutine that is over, and the loop of
-- submit, whose task comes with what a native call in it answers.
pub data Event : Type 0 where
  start_called : Event
  cancel_called : Error → Event
  read_called : ℕ → Event
  posts : Callback → Event
  posts_terminal : Error → Event
  upload_ends : Event
  runs : Bool → Event

unfoldable pub run_next : Bool → List Task → Request → Request
run_next accepted [] r = r
run_next accepted (t ∷ q) r = run_task accepted t (record r { queue = q })

-- Callbacks come from a request that was started, and none after the terminal one.
unfoldable pub step : System → Event → System
step s start_called = record s { request = submit starts s.request }
step s (cancel_called e) = record s { request = cancel_with_error e s.request }
step s (read_called n) = record s { request = (read_round n s.request).1 }
step s (posts c) =
    if s.request.started && not s.over
    then record s { request = submit (callback c) s.request }
    else s
step s (posts_terminal e) =
    if s.request.started && not s.over
    then record s { request = submit (terminal_callback e) s.request; over = true }
    else s
step s upload_ends = if s.request.uploads == 0 then s else record s {
  request = submit upload_over (record (s.request) { uploads = s.request.uploads - 1 });
}
step s (runs accepted) = record s { request = run_next accepted s.request.queue s.request }

unfoldable pub run : System → List Event → System
run s [] = s
run s (e ∷ es) = run (step s e) es

abbrev pub initial : System
initial = record { request = new_request; over = false }
