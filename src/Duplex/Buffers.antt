-- ===== src/Duplex/Buffers.antt =====
-- The worker, the native stream and the two native buffers of a request, in any order of events.
use cronet_go.Base.{
  ℕ, zero, suc, ◌≡◌, ◌≤◌, refl, List, [], ◌∷◌, Option, none, some, Bool, true, false, if◌then◌else◌,
  not, ◌&&◌, ◌++◌, arith, Error, no_progress,
}
use cronet_go.Duplex.{
  Duplex, new_duplex, start, on_stream_ready, on_response_headers_received,
  on_response_trailers_received, on_read_completed, on_write_completed, on_terminal, raw_read_round,
  finish_locked, cancel_locked,
}
use cronet_go.Duplex.Worker.{
  Worker, awaiting, uploading, writing, exited, System, stopped, cancel_if, end_round, start_write,
  uploaded_live, uploaded, Event, starts, cancels, stream_ready, headers_received,
  trailers_received, read_completed, write_completed, ends, reads, worker_begins, upload_read,
  worker_wakes, cleans, wake, let_go, read_over, write_over, begin_upload, upload_step, clean,
  given, step, run, initial,
}
use cronet_go.Duplex.Kept.{
  Keeps, cancel_locked-Keeps, start-Keeps, on_stream_ready-Keeps,
  on_response_headers_received-Keeps, on_response_trailers_received-Keeps, on_read_completed-Keeps,
  on_write_completed-Keeps, on_terminal-Keeps, raw_read_round-Keeps, start_write-Lasts,
}
use cronet_go.Duplex.Channels.{
  Sound, cancel_locked-Sound, start-Sound, on_stream_ready-Sound,
  on_response_headers_received-Sound, on_response_trailers_received-Sound, on_read_completed-Sound,
  on_write_completed-Sound, on_terminal-Sound, start_write-Sound, raw_read_round-Sound,
}

abbrev pub is_exited : Worker → Bool
is_exited exited = true
is_exited w = false

-- The worker is not in a write.
abbrev pub is_between : Worker → Bool
is_between awaiting = true
is_between uploading = true
is_between w = false

-- The worker is past `<-r.ready`.
abbrev pub is_begun : Worker → Bool
is_begun uploading = true
is_begun (writing e) = true
is_begun w = false

pub record Safe (s : System) : Type 0 where
  pub request_is : Sound s.request
  pub between : is_between s.worker ≡ true → s.request.write_pending ≡ false
  pub begun : is_begun s.worker ≡ true → s.request.started ≡ true
  pub freed_once : s.freed ≤ 1
  -- What is freed is in nobody's hands: the request is over and the worker has returned.
  pub freed_last : s.freed ≡ 1 → (s.request.terminal ≡ true) × (is_exited s.worker ≡ true)

-- A handler that keeps what the worker relies on keeps the whole.
handled-Safe :
    (s : System) (r : Duplex)
    → Sound r
    → Keeps s.request r
    → Safe s
    → Safe (record s { request = r })
handled-Safe s r v k w = ground arith

-- The two records of bytes have no part in it.
noted-Safe :
    (s : System) (supplied delivered : List ℕ)
    → Safe s
    → Safe (record s { supplied = supplied; delivered = delivered })
noted-Safe s supplied delivered w = ground arith

if-Safe :
    (b : Bool) (s t : System)
    → (b ≡ true → Safe s)
    → (b ≡ false → Safe t)
    → Safe (if b then s else t)
if-Safe true s t f g = f refl
if-Safe false s t f g = g refl

cancel_if-Safe :
    (e : Option Error) (s : System) → Safe s → Safe (record s { request = cancel_if e s.request })
cancel_if-Safe none s w = w
cancel_if-Safe (some e) s w =
    handled-Safe s (cancel_locked e s.request) (cancel_locked-Sound e s.request w.request_is)
      (cancel_locked-Keeps e s.request) w

-- A request with an error that the worker met is stopped.
cancel_if-stopped : (e : Error) (r : Duplex) → stopped (cancel_locked e r) ≡ true
unfolding cancel_locked finish_locked
cancel_if-stopped e r = ground arith

end_round-Safe :
    (e : Option Error) (s : System)
    → is_begun s.worker ≡ true
    → (stopped s.request ≡ false → s.request.write_pending ≡ false)
    → Safe s
    → Safe (end_round e s)
unfolding end_round
end_round-Safe none s b q w = ground arith
end_round-Safe (some e) s b q w =
    ground (arith, cancel_if-stopped e s.request, cancel_if-Safe (some e) s w)

start_write-Safe :
    (accepted : Bool) (e : Option Error) (s : System)
    → s.worker ≡ uploading
    → stopped s.request ≡ false
    → Safe s
    → Safe (record s { request = start_write accepted s.request; worker = writing e })
start_write-Safe accepted e s at going w =
    let q : s.request.write_pending ≡ false = w.between (rw at refl) in
    let b : s.request.started ≡ true = w.begun (rw at refl) in
    let t : s.request.terminal ≡ false = ground arith in
    ground (
      arith,
      start_write-Sound accepted s.request q t b w.request_is,
      start_write-Lasts accepted s.request,
    )

uploaded_live-Safe :
    (n : ℕ) (e : Option Error) (accepted : Bool) (s : System)
    → s.worker ≡ uploading
    → stopped s.request ≡ false
    → Safe s
    → Safe (uploaded_live n e accepted s)
unfolding uploaded_live
uploaded_live-Safe zero none accepted s at going w =
    end_round-Safe (some no_progress) s (rw at refl) (λ x. w.between (rw at refl)) w
uploaded_live-Safe zero (some e) accepted s at going w =
    end_round-Safe (some e) s (rw at refl) (λ x. w.between (rw at refl)) w
uploaded_live-Safe (suc n) e accepted s at going w = start_write-Safe accepted e s at going w

uploaded-Safe :
    (n : ℕ) (e : Option Error) (accepted : Bool) (s : System)
    → s.worker ≡ uploading
    → Safe s
    → Safe (uploaded n e accepted s)
unfolding uploaded
uploaded-Safe n e accepted s at w =
    if-Safe (stopped s.request) (record s { worker = exited }) (uploaded_live n e accepted s)
      (λ over. ground arith) (λ going. uploaded_live-Safe n e accepted s at going w)

upload_step-Safe :
    (n : ℕ) (e : Option Error) (accepted : Bool) (s : System) (p : Worker)
    → s.worker ≡ p
    → Safe s
    → Safe (upload_step n e accepted s p)
unfolding upload_step
upload_step-Safe n e accepted s uploading at w = uploaded-Safe n e accepted s at w
upload_step-Safe n e accepted s awaiting at w = w
upload_step-Safe n e accepted s (writing x) at w = w
upload_step-Safe n e accepted s exited at w = w

wake-Safe : (s : System) (p : Worker) → s.worker ≡ p → Safe s → Safe (wake s p)
unfolding wake
wake-Safe s (writing e) at w =
    if-Safe (s.request.write_pending && not (stopped s.request)) s (end_round e s) (λ busy. w)
      (λ over. end_round-Safe e s (rw at refl) (ground arith) w)
wake-Safe s uploading at w = w
wake-Safe s awaiting at w = w
wake-Safe s exited at w = w

begin_upload-Safe : (s : System) (p : Worker) → s.worker ≡ p → Safe s → Safe (begin_upload s p)
unfolding begin_upload
begin_upload-Safe s awaiting at w = ground arith
begin_upload-Safe s uploading at w = w
begin_upload-Safe s (writing x) at w = w
begin_upload-Safe s exited at w = w

clean-Safe : (s : System) (p : Worker) → s.worker ≡ p → Safe s → Safe (clean s p)
unfolding clean
clean-Safe s exited at w = ground arith
clean-Safe s awaiting at w = w
clean-Safe s uploading at w = w
clean-Safe s (writing x) at w = w

-- A read completion needs a read that is under way, a write completion a write.
pub step-Safe : (s : System) (e : Event) → Safe s → Safe (step s e)
unfolding step
step-Safe s (starts accepted) w =
    if-Safe s.request.started s (record s { request = (start accepted s.request).1 }) (λ on. w)
      (λ off.
        handled-Safe s (start accepted s.request).1
          (start-Sound accepted s.request off w.request_is) (start-Keeps accepted s.request) w)
step-Safe s (cancels e) w = cancel_if-Safe (some e) s w
step-Safe s stream_ready w =
    let r = on_stream_ready s.request in
    if-Safe s.request.started (record s { request = r }) s
      (λ on.
        handled-Safe s r (on_stream_ready-Sound s.request on w.request_is)
          (on_stream_ready-Keeps s.request) w)
      (λ off. w)
step-Safe s (headers_received accepted h) w =
    let r = on_response_headers_received accepted h s.request in
    if-Safe (s.request.started && not s.request.have_headers) (record s { request = r }) s
      (λ on.
        handled-Safe s r
          (on_response_headers_received-Sound accepted h s.request (ground arith) (ground arith)
            w.request_is)
          (on_response_headers_received-Keeps accepted h s.request) w)
      (λ off. w)
step-Safe s (trailers_received status) w =
    handled-Safe s (on_response_trailers_received status s.request)
      (on_response_trailers_received-Sound status s.request w.request_is)
      (on_response_trailers_received-Keeps status s.request) w
step-Safe s (read_completed bytes) w =
    let r = on_read_completed bytes (read_over s.request) in
    if-Safe s.request.native.reading (record s { request = r; supplied = s.supplied ++ bytes }) s
      (λ on.
        noted-Safe (record s { request = r }) (s.supplied ++ bytes) s.delivered
          (handled-Safe s r (on_read_completed-Sound bytes s.request on w.request_is)
            (on_read_completed-Keeps bytes s.request) w))
      (λ off. w)
step-Safe s write_completed w =
    let r = on_write_completed (write_over s.request) in
    if-Safe s.request.native.writing (record s { request = r }) s
      (λ on.
        handled-Safe s r (on_write_completed-Sound s.request w.request_is)
          (on_write_completed-Keeps s.request) w)
      (λ off. w)
step-Safe s (ends t) w =
    handled-Safe s (on_terminal t (let_go s.request)) (on_terminal-Sound t s.request w.request_is)
      (on_terminal-Keeps t s.request) w
step-Safe s (reads n ctx accepted) w =
    let r = (raw_read_round n ctx accepted s.request).1 in
    noted-Safe (record s { request = r }) s.supplied
      (s.delivered ++ given (raw_read_round n ctx accepted s.request).0)
      (handled-Safe s r
        (raw_read_round-Sound n ctx accepted s.request s.request.pending refl w.request_is)
        (raw_read_round-Keeps n ctx accepted s.request s.request.pending refl) w)
step-Safe s worker_begins w = begin_upload-Safe s s.worker refl w
step-Safe s (upload_read n e accepted) w = upload_step-Safe n e accepted s s.worker refl w
step-Safe s worker_wakes w = wake-Safe s s.worker refl w
step-Safe s cleans w = clean-Safe s s.worker refl w

pub run-Safe : (s : System) (es : List Event) → Safe s → Safe (run s es)
unfolding run
run-Safe s [] w = w
run-Safe s (e ∷ es) w = run-Safe (step s e) es (step-Safe s e w)

-- Whatever calls, callbacks, uploads and reads happen, in any order and any number, on a request as
-- newBrowserDuplexRequest makes it: `done` closes exactly when the request is terminal, once, and
-- the native stream is then destroyed, once, and an error is kept; no call is made on a destroyed
-- stream, no Read while a Read is under way and no Write while a Write is; Cancel is called at most
-- once and only on a stream that was started; no native read overwrites bytes that are still to be
-- handed out; the worker starts a write only when the one before is over; the two native buffers are
-- freed at most once, and only after the end of the request and the return of the worker.
pub run-initial-Safe : (framed : Bool) (es : List Event) → Safe (run (initial framed) es)
unfolding new_duplex
run-initial-Safe framed es = run-Safe (initial framed) es (ground arith)
