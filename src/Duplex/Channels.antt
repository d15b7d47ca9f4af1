-- ===== src/Duplex/Channels.antt =====
-- The channels, the native stream and the error of a request, in any order of events.
use Prim.Native.String.{String}
use cronet_go.Base.{
  ℕ, zero, suc, ◌≡◌, refl, List, [], ◌∷◌, Option, none, some, Bool, true, false, if◌then◌else◌,
  drop, canceled, net_error, arith, Error, Bool-cases, inl, inr,
}
use cronet_go.Conn.{Terminal, succeeded, cancelled_by_peer, failed}
use cronet_go.Conn.Channels.{once}
use cronet_go.Duplex.{
  Duplex, Headers, is_some, touch, start, finish_locked, cancel_locked, start_read_locked,
  on_stream_ready, on_response_headers_received, on_response_trailers_received, eof_locked,
  on_read_completed, on_write_completed, on_terminal, drained, start_failed, write_failed,
  bad_http_status, bad_content_type, bad_encoding, raw_read_round,
}
use cronet_go.Duplex.Worker.{start_write, let_go, read_over, write_over}

pub record Sound (r : Duplex) : Type 0 where
  pub done_is : r.done ≡ once r.terminal
  pub ready_is : r.ready_ch ≡ once r.ready
  pub destroyed : r.native.destroys ≡ (if r.terminal then 1 else 0)
  pub explained : r.terminal ≡ true → is_some r.err ≡ true
  pub proper : r.native.misused ≡ false
  pub cancelled_once : r.native.cancels ≡ (if r.cancelled then 1 else 0)
  pub cancels_started : r.cancelled ≡ true → r.started ≡ true
  -- A terminal request holds no native call, and a native Read is one that the request knows of.
  pub ended : r.terminal ≡ true → (r.native.reading ≡ false) × (r.native.writing ≡ false)
  pub reading_known : r.native.reading ≡ true → r.read_pending ≡ true
  pub writing_known : r.native.writing ≡ true → r.write_pending ≡ true
  pub unstarted :
      r.started ≡ false
      → (r.native.reading ≡ false)
        × (r.native.writing ≡ false)
        × (r.have_headers ≡ false)
        × (r.ready ≡ false)
  -- A read buffer under way is not overwritten by bytes that nobody has taken yet.
  pub no_backlog : r.native.reading ≡ true → r.pending ≡ []
  -- Reads wait for the headers.
  pub headed : r.native.reading ≡ true → r.have_headers ≡ true
  pub bare : r.have_headers ≡ false → r.pending ≡ []

finish_locked-Sound :
    (e : Error) (r : Duplex)
    → r.native.reading ≡ false
    → r.native.writing ≡ false
    → Sound r
    → Sound (finish_locked e r)
unfolding finish_locked
finish_locked-Sound e r a b v = ground arith

pub cancel_locked-Sound : (e : Error) (r : Duplex) → Sound r → Sound (cancel_locked e r)
unfolding cancel_locked
cancel_locked-Sound e r v = ground arith

start_read_locked-Sound :
    (accepted : Bool) (r : Duplex) → r.pending ≡ [] → Sound r → Sound (start_read_locked accepted r)
unfolding start_read_locked
start_read_locked-Sound true r e v = ground arith
start_read_locked-Sound false r e v = ground arith

pub on_stream_ready-Sound : (r : Duplex) → r.started ≡ true → Sound r → Sound (on_stream_ready r)
unfolding on_stream_ready
on_stream_ready-Sound r e v = ground arith

if-Sound : (b : Bool) (r t : Duplex) → Sound r → Sound t → Sound (if b then r else t)
if-Sound true r t v w = v
if-Sound false r t v w = w

pub on_response_headers_received-Sound :
    (accepted : Bool) (h : Headers) (r : Duplex)
    → r.started ≡ true
    → r.pending ≡ []
    → Sound r
    → Sound (on_response_headers_received accepted h r)
unfolding on_response_headers_received
on_response_headers_received-Sound accepted h r on e v =
    let r' = record r {
      grpc_status = if r.decoder then h.grpc_status else r.grpc_status;
      have_headers = true;
    } in
    let v' : Sound r' = ground arith in
    if-Sound _ _ _ (cancel_locked-Sound bad_http_status r v) (
      if-Sound _ _ _ (cancel_locked-Sound bad_content_type r v) (
        if-Sound _ _ _ (cancel_locked-Sound bad_encoding r v)
          (start_read_locked-Sound accepted r' e v')))

pub on_response_trailers_received-Sound :
    (status : String) (r : Duplex) → Sound r → Sound (on_response_trailers_received status r)
unfolding on_response_trailers_received
on_response_trailers_received-Sound status r v = ground arith

pub on_read_completed-Sound :
    (bytes : List ℕ) (r : Duplex)
    → r.native.reading ≡ true
    → Sound r
    → Sound (on_read_completed bytes (read_over r))
unfolding on_read_completed
on_read_completed-Sound [] r e v =
    cancel_locked-Sound (eof_locked (read_over r)) (record (read_over r) { read_pending = false })
      (ground arith)
on_read_completed-Sound (x ∷ bytes) r e v = ground arith

pub on_write_completed-Sound : (r : Duplex) → Sound r → Sound (on_write_completed (write_over r))
unfolding on_write_completed
on_write_completed-Sound r v = ground arith

let_go-Sound : (e : Error) (r : Duplex) → Sound r → Sound (finish_locked e (let_go r))
let_go-Sound e r v = finish_locked-Sound e (let_go r) refl refl (ground arith)

pub on_terminal-Sound : (t : Terminal) (r : Duplex) → Sound r → Sound (on_terminal t (let_go r))
unfolding on_terminal
on_terminal-Sound succeeded r v = let_go-Sound (eof_locked (let_go r)) r v
on_terminal-Sound (failed code) r v = let_go-Sound (net_error code) r v
on_terminal-Sound cancelled_by_peer r v = let_go-Sound canceled r v

pub start-Sound :
    (accepted : Bool) (r : Duplex) → r.started ≡ false → Sound r → Sound (start accepted r).1
unfolding start
start-Sound true r e v = ground arith
start-Sound false r e v =
    let r' = record r { native = touch false r.native } in
    elim (Bool-cases r.terminal) [
      | inl over ↦ ground (arith, over)
      | inr going ↦
          let v' : Sound r' = ground (arith, going) in
          ground (
            arith,
            going,
            finish_locked-Sound start_failed r' (v.unstarted e).0 (v.unstarted e).1 v',
          )
    ]

pub start_write-Sound :
    (accepted : Bool) (r : Duplex)
    → r.write_pending ≡ false
    → r.terminal ≡ false
    → r.started ≡ true
    → Sound r
    → Sound (start_write accepted r)
unfolding start_write
start_write-Sound true r a b c v = ground arith
start_write-Sound false r a b c v =
    cancel_locked-Sound write_failed
      (record r { write_pending = true; native = touch r.native.writing r.native }) (ground arith)

drained-Sound :
    (accepted : Bool) (r : Duplex) (rest : List ℕ)
    → r.pending ≡ rest
    → Sound r
    → Sound (drained accepted r)
unfolding drained
drained-Sound accepted r [] e v = ground (arith, start_read_locked-Sound accepted r e v)
drained-Sound accepted r (x ∷ xs) e v = ground arith

taken-Sound :
    (r : Duplex) (x : ℕ) (xs rest : List ℕ)
    → r.pending ≡ x ∷ xs
    → Sound r
    → Sound (record r { pending = rest })
taken-Sound r x xs rest e v = ground arith

pub raw_read_round-Sound :
    (n : ℕ) (ctx : Option Error) (accepted : Bool) (r : Duplex) (pending : List ℕ)
    → r.pending ≡ pending
    → Sound r
    → Sound (raw_read_round n ctx accepted r).1
unfolding raw_read_round
raw_read_round-Sound zero ctx accepted r p e v = v
raw_read_round-Sound (suc n) (some x) accepted r p e v = v
raw_read_round-Sound (suc n) none accepted r [] e v = ground arith
raw_read_round-Sound (suc n) none accepted r (x ∷ xs) e v = ground (
  arith,
  drained-Sound accepted (record r { pending = drop (suc n) (x ∷ xs) }) (drop (suc n) (x ∷ xs)) refl
      (taken-Sound r x xs (drop (suc n) (x ∷ xs)) e v),
)
