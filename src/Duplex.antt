-- ===== src/Duplex.antt =====
-- browser_xhttp_duplex.go: the response side of a bidirectional request, with an upload worker. Each
-- function is what the code does under the request's lock; Duplex/Worker.antt has the goroutines and
-- the order of events.
pub mod Worker
pub mod Kept
pub mod Channels
pub mod Buffers
pub mod Delivery
pub mod Lasting
mod Examples
use Prim.Native.String.{String}
use text.Mathlib.Text.{◌==◌ as str_eq, starts_with}
use cronet_go.Base.{
  ℕ, zero, suc, ◌+◌, List, [], ◌∷◌, Option, none, some, Bool, true, false, if◌then◌else◌, not, ◌&&◌,
  ◌||◌, ◌==◌, take, drop, Error, eof, canceled, net_error, failure,
}
use cronet_go.Conn.{Chan, live, close_chan, Terminal, succeeded, cancelled_by_peer, failed}

-- The errors that this file makes, told apart by a number.
abbrev pub start_failed : Error
start_failed = failure 1

abbrev pub read_failed : Error
read_failed = failure 2

abbrev pub write_failed : Error
write_failed = failure 3

abbrev pub bad_http_status : Error
bad_http_status = failure 4

abbrev pub bad_content_type : Error
bad_content_type = failure 5

abbrev pub bad_encoding : Error
bad_encoding = failure 6

abbrev pub missing_grpc_status : Error
missing_grpc_status = failure 7

abbrev pub bad_grpc_status : Error
bad_grpc_status = failure 8

-- What the native stream was asked for, and which of the two native buffers it holds.
pub record Native : Type 0 where
  pub cancels : ℕ
  pub destroys : ℕ
  pub misused : Bool
  pub reading : Bool
  pub writing : Bool

pub record Duplex : Type 0 where
  pub native : Native
  -- Whether a gRPC decoder was installed (`framed`).
  pub decoder : Bool
  pub started : Bool
  pub ready : Bool
  pub have_headers : Bool
  pub read_pending : Bool
  pub write_pending : Bool
  pub cancelled : Bool
  pub terminal : Bool
  pub err : Option Error
  pub pending : List ℕ
  pub grpc_status : String
  pub ready_ch : Chan
  pub done : Chan
  -- The channels made by signalLocked so far.
  pub notify : ℕ

-- newBrowserDuplexRequest.
unfoldable pub new_duplex : Bool → Duplex
new_duplex framed = record {
  native = record { cancels = 0; destroys = 0; misused = false; reading = false; writing = false };
  decoder = framed;
  started = false;
  ready = false;
  have_headers = false;
  read_pending = false;
  write_pending = false;
  cancelled = false;
  terminal = false;
  err = none;
  pending = [];
  grpc_status = "";
  ready_ch = live;
  done = live;
  notify = 0;
}

abbrev pub is_some {ℓ} : {A : Type ℓ} → Option A → Bool
is_some none = false
is_some (some a) = true

abbrev pub or_keep : Option Error → Error → Option Error
or_keep none e = some e
or_keep (some x) e = some x

-- A call that the native stream forbids is recorded: any on a stream that has been destroyed, a Read
-- while a Read is under way, a Write while a Write is.
abbrev pub touch : Bool → Native → Native
touch busy n = record n { misused = if n.destroys == 0 && not busy then n.misused else true }

abbrev pub stream_cancel : Native → Native
stream_cancel n = record (touch false n) { cancels = suc n.cancels }

abbrev pub stream_destroy : Native → Native
stream_destroy n = record (touch false n) { destroys = suc n.destroys }

abbrev pub signal_locked : Duplex → Duplex
signal_locked r = record r { notify = suc r.notify }

unfoldable pub finish_locked : Error → Duplex → Duplex
finish_locked e r =
    if r.terminal
    then r
    else signal_locked (record r {
      terminal = true;
      err = or_keep r.err e;
      native = stream_destroy r.native;
      done = close_chan r.done;
    })

unfoldable pub cancel_locked : Error → Duplex → Duplex
unfolding finish_locked
cancel_locked e r =
    let r' = record r { err = or_keep r.err e } in
    if not r.started && not r.terminal
    then finish_locked e r'
    else signal_locked (
        if not r.cancelled && (not r.terminal && r.started)
        then record r' { cancelled = true; native = stream_cancel r.native }
        else r')

-- start; `accepted` is what the native Start returns. The call is one on the stream, like the others.
unfoldable pub start : Bool → Duplex → Option Error × Duplex
start accepted r =
    if r.terminal
    then (r.err, r)
    else let r' = record r { native = touch false r.native } in
      if accepted
      then (none, record r' { started = true })
      else (some start_failed, finish_locked start_failed r')

-- startReadLocked; `accepted` is whether the native Read starts.
unfoldable pub start_read_locked : Bool → Duplex → Duplex
unfolding cancel_locked
start_read_locked accepted r =
    if not r.have_headers || (r.read_pending || (r.terminal || is_some r.err))
    then r
    else let r' = record r { read_pending = true; native = touch r.native.reading r.native } in
      if accepted
      then record r' { native = record (touch r.native.reading r.native) { reading = true } }
      else cancel_locked read_failed r'

unfoldable pub on_stream_ready : Duplex → Duplex
on_stream_ready r =
    if r.ready then r else record r { ready = true; ready_ch = close_chan r.ready_ch }

-- The response headers that the code looks up; a missing one is the empty string.
pub record Headers : Type 0 where
  pub status : String
  pub content_type : String
  pub grpc_encoding : String
  pub grpc_status : String

abbrev pub is_grpc : String → Bool
is_grpc t = str_eq t "application/grpc" || starts_with t "application/grpc+"

abbrev pub is_identity : String → Bool
is_identity e = str_eq e "" || str_eq e "identity"

-- OnResponseHeadersReceived.
unfoldable pub on_response_headers_received : Bool → Headers → Duplex → Duplex
on_response_headers_received accepted h r =
    if not (str_eq h.status "200")
    then cancel_locked bad_http_status r
    else if r.decoder && not (is_grpc h.content_type)
    then cancel_locked bad_content_type r
    else if r.decoder && not (is_identity h.grpc_encoding)
    then cancel_locked bad_encoding r
    else start_read_locked accepted (record r {
      grpc_status = if r.decoder then h.grpc_status else r.grpc_status;
      have_headers = true;
    })

unfoldable pub on_response_trailers_received : String → Duplex → Duplex
on_response_trailers_received status r =
    if str_eq status "" then r else record r { grpc_status = status }

unfoldable pub eof_locked : Duplex → Error
eof_locked r =
    if r.decoder
    then if str_eq r.grpc_status ""
      then missing_grpc_status
      else if str_eq r.grpc_status "0"
      then eof
      else bad_grpc_status
    else eof

-- OnReadCompleted, with the bytes that the native stream wrote to the read buffer.
unfoldable pub on_read_completed : List ℕ → Duplex → Duplex
on_read_completed [] r = cancel_locked (eof_locked r) (record r { read_pending = false })
on_read_completed (x ∷ bytes) r =
    signal_locked (record r { read_pending = false; pending = x ∷ bytes })

unfoldable pub on_write_completed : Duplex → Duplex
on_write_completed r = signal_locked (record r { write_pending = false })

-- OnSucceeded, OnFailed and OnCanceled.
unfoldable pub on_terminal : Terminal → Duplex → Duplex
on_terminal succeeded r = finish_locked (eof_locked r) r
on_terminal (failed code) r = finish_locked (net_error code) r
on_terminal cancelled_by_peer r = finish_locked canceled r

-- One round of readRawContext for a slice of n bytes: what it returns, or a wait on `notify`.
pub data RawRead : Type 0 where
  gives : List ℕ → RawRead
  fails : Error → RawRead
  waits : ℕ → RawRead

-- When the last pending byte is taken the next native read starts.
unfoldable pub drained : Bool → Duplex → Duplex
drained accepted r = elim r.pending [ [] ↦ start_read_locked accepted r | x ∷ xs ↦ r ]

unfoldable pub raw_read_round : ℕ → Option Error → Bool → Duplex → RawRead × Duplex
raw_read_round zero ctx accepted r = (gives [], r)
raw_read_round (suc n) (some e) accepted r = (fails e, r)
raw_read_round (suc n) none accepted r = elim r.pending [
  | x ∷ xs ↦ (
    gives (take (suc n) (x ∷ xs)),
    drained accepted (record r { pending = drop (suc n) (x ∷ xs) }),
  )
  | [] ↦ elim r.err [ some e ↦ (fails e, r) | none ↦ (waits r.notify, r) ]
]
