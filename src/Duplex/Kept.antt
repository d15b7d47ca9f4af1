-- ===== src/Duplex/Kept.antt =====
-- What the handlers of a request never undo: a start, an end, an error, a write that is over.
use Prim.Native.String.{String}
use cronet_go.Base.{
  ℕ, zero, suc, ◌≡◌, refl, List, [], ◌∷◌, Option, none, some, Bool, true, false, if◌then◌else◌,
  drop, arith, Error, canceled, net_error,
}
use cronet_go.Conn.{Terminal, succeeded, cancelled_by_peer, failed}
use cronet_go.Duplex.{
  Duplex, Headers, is_some, start, finish_locked, cancel_locked, start_read_locked, on_stream_ready,
  on_response_headers_received, on_response_trailers_received, eof_locked, touch, on_read_completed,
  on_write_completed, on_terminal, drained, start_failed, write_failed, bad_http_status,
  bad_content_type, bad_encoding, raw_read_round,
}
use cronet_go.Duplex.Worker.{start_write, let_go, read_over, write_over}

pub record Lasts (r r' : Duplex) : Type 0 where
  pub begun : r.started ≡ true → r'.started ≡ true
  pub over : r.terminal ≡ true → r'.terminal ≡ true
  -- The first error stays, as `err` is written only while it is nil.
  pub first : is_some r.err ≡ true → r'.err ≡ r.err

pub record Keeps (r r' : Duplex) : Type 0 where
  pub lasts : Lasts r r'
  pub quiet : r.write_pending ≡ false → r'.write_pending ≡ false

finish_locked-Keeps : (e : Error) (r : Duplex) → Keeps r (finish_locked e r)
unfolding finish_locked
finish_locked-Keeps e r = ground arith

pub cancel_locked-Keeps : (e : Error) (r : Duplex) → Keeps r (cancel_locked e r)
unfolding cancel_locked
cancel_locked-Keeps e r = ground arith

start_read_locked-Keeps : (accepted : Bool) (r : Duplex) → Keeps r (start_read_locked accepted r)
unfolding start_read_locked
start_read_locked-Keeps accepted r = ground arith

pub start-Keeps : (accepted : Bool) (r : Duplex) → Keeps r (start accepted r).1
unfolding start
start-Keeps true r = ground arith
start-Keeps false r =
    ground (arith, finish_locked-Keeps start_failed (record r { native = touch false r.native }))

pub on_stream_ready-Keeps : (r : Duplex) → Keeps r (on_stream_ready r)
unfolding on_stream_ready
on_stream_ready-Keeps r = ground arith

pub on_response_headers_received-Keeps :
    (accepted : Bool) (h : Headers) (r : Duplex)
    → Keeps r (on_response_headers_received accepted h r)
unfolding on_response_headers_received
on_response_headers_received-Keeps accepted h r =
    let r' = record r {
      grpc_status = if r.decoder then h.grpc_status else r.grpc_status;
      have_headers = true;
    } in
    ground (
      arith,
      cancel_locked-Keeps bad_http_status r,
      cancel_locked-Keeps bad_content_type r,
      cancel_locked-Keeps bad_encoding r,
      start_read_locked-Keeps accepted r',
    )

pub on_response_trailers_received-Keeps :
    (status : String) (r : Duplex) → Keeps r (on_response_trailers_received status r)
unfolding on_response_trailers_received
on_response_trailers_received-Keeps status r = ground arith

pub on_read_completed-Keeps :
    (bytes : List ℕ) (r : Duplex) → Keeps r (on_read_completed bytes (read_over r))
unfolding on_read_completed
on_read_completed-Keeps [] r = ground (
  arith,
  cancel_locked-Keeps (eof_locked (read_over r)) (record (read_over r) { read_pending = false }),
)
on_read_completed-Keeps (x ∷ bytes) r = ground arith

pub on_write_completed-Keeps : (r : Duplex) → Keeps r (on_write_completed (write_over r))
unfolding on_write_completed
on_write_completed-Keeps r = ground arith

pub on_terminal-Keeps : (t : Terminal) (r : Duplex) → Keeps r (on_terminal t (let_go r))
unfolding on_terminal
on_terminal-Keeps succeeded r =
    ground (arith, finish_locked-Keeps (eof_locked (let_go r)) (let_go r))
on_terminal-Keeps (failed code) r = ground (arith, finish_locked-Keeps (net_error code) (let_go r))
on_terminal-Keeps cancelled_by_peer r = ground (arith, finish_locked-Keeps canceled (let_go r))

drained-Keeps :
    (accepted : Bool) (r : Duplex) (rest : List ℕ) → r.pending ≡ rest → Keeps r (drained accepted r)
unfolding drained
drained-Keeps accepted r [] e = ground (arith, start_read_locked-Keeps accepted r)
drained-Keeps accepted r (x ∷ xs) e = ground arith

pub raw_read_round-Keeps :
    (n : ℕ) (ctx : Option Error) (accepted : Bool) (r : Duplex) (pending : List ℕ)
    → r.pending ≡ pending
    → Keeps r (raw_read_round n ctx accepted r).1
unfolding raw_read_round
raw_read_round-Keeps zero ctx accepted r p e = ground arith
raw_read_round-Keeps (suc n) (some x) accepted r p e = ground arith
raw_read_round-Keeps (suc n) none accepted r [] e = ground arith
raw_read_round-Keeps (suc n) none accepted r (x ∷ xs) e = ground (
  arith,
  drained-Keeps accepted (record r { pending = drop (suc n) (x ∷ xs) }) (drop (suc n) (x ∷ xs))
      refl,
)

-- A Write that starts makes a write pending, and nothing else of this changes.
pub start_write-Lasts : (accepted : Bool) (r : Duplex) → Lasts r (start_write accepted r)
unfolding start_write
start_write-Lasts true r = ground arith
start_write-Lasts false r = ground (
  arith,
  cancel_locked-Keeps write_failed
      (record r { write_pending = true; native = touch r.native.writing r.native }),
)
