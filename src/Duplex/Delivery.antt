-- ===== src/Duplex/Delivery.antt =====
-- What the response stream hands out: the bytes of the native reads in order, none twice, none lost.
use Prim.Native.String.{String}
use cronet_go.Base.{
  ℕ, zero, suc, ◌≡◌, refl, sym, ap, ◌∙◌, List, [], ◌∷◌, ◌++◌, append-nil, append_assoc,
  take-append-drop, Option, none, some, Bool, true, false, if◌then◌else◌, drop, arith, Error,
  no_progress,
}
use cronet_go.Conn.{Terminal, succeeded, cancelled_by_peer, failed}
use cronet_go.Duplex.{
  Duplex, Headers, new_duplex, start, finish_locked, cancel_locked, start_read_locked,
  bad_http_status, bad_content_type, bad_encoding, on_stream_ready, on_response_headers_received,
  on_response_trailers_received, on_read_completed, on_write_completed, on_terminal, drained,
  eof_locked, raw_read_round, fails,
}
use cronet_go.Duplex.Worker.{
  Worker, awaiting, uploading, writing, exited, System, end_round, start_write, uploaded_live,
  uploaded, Event, starts, cancels, stream_ready, headers_received, trailers_received,
  read_completed, write_completed, ends, reads, worker_begins, upload_read, worker_wakes, cleans,
  wake, let_go, read_over, write_over, begin_upload, upload_step, clean, given, step, run, initial,
}
use cronet_go.Duplex.Buffers.{Safe, step-Safe, run-initial-Safe}

record Pends (p : List ℕ) (r : Duplex) : Type 0 where
  pends : r.pending ≡ p

if-Pends :
    (b : Bool) (r t : Duplex) {p : List ℕ} → Pends p r → Pends p t → Pends p (if b then r else t)
if-Pends true r t e f = e
if-Pends false r t e f = f

cancel_locked-pending : (e : Error) (r : Duplex) → (cancel_locked e r).pending ≡ r.pending
unfolding cancel_locked finish_locked
cancel_locked-pending e r = ground arith

start_read_locked-pending :
    (accepted : Bool) (r : Duplex) → (start_read_locked accepted r).pending ≡ r.pending
unfolding start_read_locked cancel_locked finish_locked
start_read_locked-pending accepted r = ground arith

start_read_locked-Pends :
    (accepted : Bool) (r : Duplex) → Pends r.pending (start_read_locked accepted r)
start_read_locked-Pends accepted r = record { pends = start_read_locked-pending accepted r }

start-pending : (accepted : Bool) (r : Duplex) → (start accepted r).1.pending ≡ r.pending
unfolding start finish_locked
start-pending accepted r = ground arith

on_stream_ready-pending : (r : Duplex) → (on_stream_ready r).pending ≡ r.pending
unfolding on_stream_ready
on_stream_ready-pending r = ground arith

cancel_locked-Pends : (e : Error) (r : Duplex) → Pends r.pending (cancel_locked e r)
cancel_locked-Pends e r = record { pends = cancel_locked-pending e r }

headers-Pends :
    (accepted : Bool) (h : Headers) (r : Duplex)
    → Pends r.pending (on_response_headers_received accepted h r)
unfolding on_response_headers_received
headers-Pends accepted h r =
    let r' = record r {
      grpc_status = if r.decoder then h.grpc_status else r.grpc_status;
      have_headers = true;
    } in
    if-Pends _ _ _ (cancel_locked-Pends bad_http_status r) (
      if-Pends _ _ _ (cancel_locked-Pends bad_content_type r)
        (if-Pends _ _ _ (cancel_locked-Pends bad_encoding r) (start_read_locked-Pends accepted r')))

headers-pending :
    (accepted : Bool) (h : Headers) (r : Duplex)
    → (on_response_headers_received accepted h r).pending ≡ r.pending
headers-pending accepted h r = (headers-Pends accepted h r).pends

trailers-pending :
    (status : String) (r : Duplex) → (on_response_trailers_received status r).pending ≡ r.pending
unfolding on_response_trailers_received
trailers-pending status r = ground arith

on_terminal-pending : (t : Terminal) (r : Duplex) → (on_terminal t r).pending ≡ r.pending
unfolding on_terminal finish_locked
on_terminal-pending succeeded r = ground arith
on_terminal-pending (failed code) r = ground arith
on_terminal-pending cancelled_by_peer r = ground arith

on_write_completed-pending : (r : Duplex) → (on_write_completed r).pending ≡ r.pending
unfolding on_write_completed
on_write_completed-pending r = refl

start_write-pending : (accepted : Bool) (r : Duplex) → (start_write accepted r).pending ≡ r.pending
unfolding start_write cancel_locked finish_locked
start_write-pending accepted r = ground arith

drained-pending :
    (accepted : Bool) (r : Duplex) (rest : List ℕ)
    → r.pending ≡ rest
    → (drained accepted r).pending ≡ r.pending
unfolding drained
drained-pending accepted r [] e = ground (arith, start_read_locked-pending accepted r)
drained-pending accepted r (x ∷ xs) e = ground arith

-- The bytes that native reads brought are those handed out and those still pending, in this order.
abbrev pub Balanced : System → Type 0
Balanced s = s.supplied ≡ s.delivered ++ s.request.pending

handled-Balanced :
    (s : System) (r : Duplex)
    → r.pending ≡ s.request.pending
    → Balanced s
    → Balanced (record s { request = r })
handled-Balanced s r e b = b ∙ ap (λ p. s.delivered ++ p) (sym e)

raw_read_round-given :
    (n : ℕ) (ctx : Option Error) (accepted : Bool) (r : Duplex) (pending : List ℕ)
    → r.pending ≡ pending
    → given (raw_read_round n ctx accepted r).0 ++ (raw_read_round n ctx accepted r).1.pending
      ≡ r.pending
unfolding raw_read_round
raw_read_round-given zero ctx accepted r p e = refl
raw_read_round-given (suc n) (some x) accepted r p e = refl
raw_read_round-given (suc n) none accepted r [] e = ground arith
raw_read_round-given (suc n) none accepted r (x ∷ xs) e = ground (
  arith,
  drained-pending accepted (record r { pending = drop (suc n) (x ∷ xs) }) (drop (suc n) (x ∷ xs))
      refl,
  take-append-drop (suc n) (x ∷ xs),
)

if-Balanced :
    (b : Bool) (s t : System)
    → (b ≡ true → Balanced s)
    → (b ≡ false → Balanced t)
    → Balanced (if b then s else t)
if-Balanced true s t f g = f refl
if-Balanced false s t f g = g refl

end_round-Balanced : (e : Option Error) (s : System) → Balanced s → Balanced (end_round e s)
unfolding end_round
end_round-Balanced none s b = b
end_round-Balanced (some e) s b =
    handled-Balanced s (cancel_locked e s.request) (cancel_locked-pending e s.request) b

uploaded_live-Balanced :
    (n : ℕ) (e : Option Error) (accepted : Bool) (s : System)
    → Balanced s
    → Balanced (uploaded_live n e accepted s)
unfolding uploaded_live
uploaded_live-Balanced zero none accepted s b = end_round-Balanced (some no_progress) s b
uploaded_live-Balanced zero (some e) accepted s b = end_round-Balanced (some e) s b
uploaded_live-Balanced (suc n) e accepted s b =
    handled-Balanced s (start_write accepted s.request) (start_write-pending accepted s.request) b

upload_step-Balanced :
    (n : ℕ) (e : Option Error) (accepted : Bool) (s : System) (p : Worker)
    → Balanced s
    → Balanced (upload_step n e accepted s p)
unfolding upload_step uploaded
upload_step-Balanced n e accepted s uploading b =
    if-Balanced _ _ _ (λ over. b) (λ going. uploaded_live-Balanced n e accepted s b)
upload_step-Balanced n e accepted s awaiting b = b
upload_step-Balanced n e accepted s (writing x) b = b
upload_step-Balanced n e accepted s exited b = b

wake-Balanced : (s : System) (p : Worker) → Balanced s → Balanced (wake s p)
unfolding wake
wake-Balanced s (writing e) b = if-Balanced _ _ _ (λ busy. b) (λ over. end_round-Balanced e s b)
wake-Balanced s uploading b = b
wake-Balanced s awaiting b = b
wake-Balanced s exited b = b

begin_upload-Balanced : (s : System) (p : Worker) → Balanced s → Balanced (begin_upload s p)
unfolding begin_upload
begin_upload-Balanced s awaiting b = ground arith
begin_upload-Balanced s uploading b = b
begin_upload-Balanced s (writing x) b = b
begin_upload-Balanced s exited b = b

clean-Balanced : (s : System) (p : Worker) → Balanced s → Balanced (clean s p)
unfolding clean
clean-Balanced s exited b = if-Balanced _ _ _ (λ free. b) (λ not_yet. b)
clean-Balanced s awaiting b = b
clean-Balanced s uploading b = b
clean-Balanced s (writing x) b = b

-- Bytes arrive only when none are pending.
read_completed-Balanced :
    (bytes : List ℕ) (s : System)
    → s.request.pending ≡ []
    → Balanced s
    → s.supplied ++ bytes ≡ s.delivered ++ (on_read_completed bytes (read_over s.request)).pending
unfolding on_read_completed
read_completed-Balanced [] s e b =
    let r = record (read_over s.request) { read_pending = false } in
    append-nil s.supplied
    ∙ b
    ∙ ap (λ p. s.delivered ++ p) (sym (cancel_locked-pending (eof_locked (read_over s.request)) r))
read_completed-Balanced (x ∷ bytes) s e b =
    ap (λ p. p ++ x ∷ bytes) (b ∙ ap (λ p. s.delivered ++ p) e ∙ append-nil s.delivered)

step-Balanced : (s : System) (e : Event) → Safe s → Balanced s → Balanced (step s e)
unfolding step
step-Balanced s (starts accepted) w b =
    if-Balanced _ _ _ (λ on. b)
      (λ off. handled-Balanced s (start accepted s.request).1 (start-pending accepted s.request) b)
step-Balanced s (cancels e) w b =
    handled-Balanced s (cancel_locked e s.request) (cancel_locked-pending e s.request) b
step-Balanced s stream_ready w b =
    if-Balanced _ _ _
      (λ on. handled-Balanced s (on_stream_ready s.request) (on_stream_ready-pending s.request) b)
      (λ off. b)
step-Balanced s (headers_received accepted h) w b =
    if-Balanced _ _ _
      (λ on.
        handled-Balanced s (on_response_headers_received accepted h s.request)
          (headers-pending accepted h s.request) b)
      (λ off. b)
step-Balanced s (trailers_received status) w b =
    handled-Balanced s (on_response_trailers_received status s.request)
      (trailers-pending status s.request) b
step-Balanced s (read_completed bytes) w b =
    if-Balanced _ _ _ (λ on. read_completed-Balanced bytes s (w.request_is.no_backlog on) b)
      (λ off. b)
step-Balanced s write_completed w b =
    if-Balanced _ _ _
      (λ on.
        handled-Balanced s (on_write_completed (write_over s.request))
          (on_write_completed-pending (write_over s.request)) b)
      (λ off. b)
step-Balanced s (ends t) w b =
    handled-Balanced s (on_terminal t (let_go s.request)) (on_terminal-pending t (let_go s.request))
      b
step-Balanced s (reads n ctx accepted) w b =
    b
    ∙ ap (λ p. s.delivered ++ p)
        (sym (raw_read_round-given n ctx accepted s.request s.request.pending refl))
    ∙ sym (append_assoc s.delivered _ _)
step-Balanced s worker_begins w b = begin_upload-Balanced s s.worker b
step-Balanced s (upload_read n e accepted) w b = upload_step-Balanced n e accepted s s.worker b
step-Balanced s worker_wakes w b = wake-Balanced s s.worker b
step-Balanced s cleans w b = clean-Balanced s s.worker b

run-Balanced : (s : System) (es : List Event) → Safe s → Balanced s → Balanced (run s es)
unfolding run
run-Balanced s [] w b = b
run-Balanced s (e ∷ es) w b = run-Balanced (step s e) es (step-Safe s e w) (step-Balanced s e w b)

-- Whatever happens, in any order, on a request as newBrowserDuplexRequest makes it: the bytes that the
-- native reads brought are the bytes that readRawContext gave out followed by the pending ones. So a
-- reader sees each byte once and in order, whatever slices it brings and however reads, errors and
-- cancels interleave.
pub run-initial-Balanced : (framed : Bool) (es : List Event) → Balanced (run (initial framed) es)
unfolding new_duplex run
run-initial-Balanced framed es = run-Balanced (initial framed) es (run-initial-Safe framed []) refl

fails-pending :
    (n : ℕ) (accepted : Bool) (e : Error) (r r' : Duplex) (pending : List ℕ)
    → r.pending ≡ pending
    → raw_read_round n none accepted r ≡ (fails e, r')
    → r.pending ≡ []
unfolding raw_read_round
fails-pending zero accepted e r r' p at f = ground arith
fails-pending (suc n) accepted e r r' [] at f = at
fails-pending (suc n) accepted e r r' (x ∷ xs) at f = ground arith

-- A reader whose context is live is failed only when it has been given every byte that came.
pub fails-delivered :
    (framed : Bool) (es : List Event) (n : ℕ) (accepted : Bool) (e : Error) (r : Duplex)
    → raw_read_round n none accepted (run (initial framed) es).request ≡ (fails e, r)
    → (run (initial framed) es).supplied ≡ (run (initial framed) es).delivered
fails-delivered framed es n accepted e r f =
    let s = run (initial framed) es in
    run-initial-Balanced framed es
    ∙ ap (λ p. s.delivered ++ p) (fails-pending n accepted e s.request r s.request.pending refl f)
    ∙ append-nil s.delivered
