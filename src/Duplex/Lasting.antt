-- ===== src/Duplex/Lasting.antt =====
-- What no event of a request undoes.
use cronet_go.Base.{
  ℕ, zero, suc, ◌≡◌, refl, List, [], ◌∷◌, Option, none, some, Bool, true, false, if◌then◌else◌,
  arith, Error, no_progress,
}
use cronet_go.Duplex.Kept.{
  Lasts, Keeps, cancel_locked-Keeps, start-Keeps, on_stream_ready-Keeps,
  on_response_headers_received-Keeps, on_response_trailers_received-Keeps, on_read_completed-Keeps,
  on_write_completed-Keeps, on_terminal-Keeps, raw_read_round-Keeps, start_write-Lasts,
}
use cronet_go.Duplex.Worker.{
  Worker, awaiting, uploading, writing, exited, System, end_round, uploaded_live, uploaded, Event,
  starts, cancels, stream_ready, headers_received, trailers_received, read_completed,
  write_completed, ends, reads, worker_begins, upload_read, worker_wakes, cleans, wake,
  begin_upload, upload_step, clean, step, run,
}

record Endures (s t : System) : Type 0 where
  request : Lasts s.request t.request

same : (s t : System) → t.request ≡ s.request → Endures s t
same s t e = record { request = ground arith }

by : (s t : System) → Keeps s.request t.request → Endures s t
by s t k = record { request = k.lasts }

if-Endures :
    (b : Bool) (s t u : System) → Endures s t → Endures s u → Endures s (if b then t else u)
if-Endures true s t u f g = f
if-Endures false s t u f g = g

end_round-Endures : (e : Option Error) (s : System) → Endures s (end_round e s)
unfolding end_round
end_round-Endures none s = same s _ refl
end_round-Endures (some e) s = by s _ (cancel_locked-Keeps e s.request)

uploaded_live-Endures :
    (n : ℕ) (e : Option Error) (accepted : Bool) (s : System)
    → Endures s (uploaded_live n e accepted s)
unfolding uploaded_live
uploaded_live-Endures zero none accepted s = end_round-Endures (some no_progress) s
uploaded_live-Endures zero (some e) accepted s = end_round-Endures (some e) s
uploaded_live-Endures (suc n) e accepted s = record {
  request = start_write-Lasts accepted s.request;
}

upload_step-Endures :
    (n : ℕ) (e : Option Error) (accepted : Bool) (s : System) (p : Worker)
    → Endures s (upload_step n e accepted s p)
unfolding upload_step uploaded
upload_step-Endures n e accepted s uploading =
    if-Endures _ s _ _ (same s _ refl) (uploaded_live-Endures n e accepted s)
upload_step-Endures n e accepted s awaiting = same s s refl
upload_step-Endures n e accepted s (writing x) = same s s refl
upload_step-Endures n e accepted s exited = same s s refl

wake-Endures : (s : System) (p : Worker) → Endures s (wake s p)
unfolding wake
wake-Endures s (writing e) = if-Endures _ s _ _ (same s s refl) (end_round-Endures e s)
wake-Endures s uploading = same s s refl
wake-Endures s awaiting = same s s refl
wake-Endures s exited = same s s refl

begin_upload-request : (s : System) (p : Worker) → (begin_upload s p).request ≡ s.request
unfolding begin_upload
begin_upload-request s awaiting = ground arith
begin_upload-request s uploading = refl
begin_upload-request s (writing x) = refl
begin_upload-request s exited = refl

clean-request : (s : System) (p : Worker) → (clean s p).request ≡ s.request
unfolding clean
clean-request s exited = ground arith
clean-request s awaiting = refl
clean-request s uploading = refl
clean-request s (writing x) = refl

step-Endures : (s : System) (e : Event) → Endures s (step s e)
unfolding step
step-Endures s (starts accepted) =
    if-Endures _ s _ _ (same s s refl) (by s _ (start-Keeps accepted s.request))
step-Endures s (cancels e) = by s _ (cancel_locked-Keeps e s.request)
step-Endures s stream_ready =
    if-Endures _ s _ _ (by s _ (on_stream_ready-Keeps s.request)) (same s s refl)
step-Endures s (headers_received accepted h) =
    if-Endures _ s _ _ (by s _ (on_response_headers_received-Keeps accepted h s.request))
      (same s s refl)
step-Endures s (trailers_received status) =
    by s _ (on_response_trailers_received-Keeps status s.request)
step-Endures s (read_completed bytes) =
    if-Endures _ s _ _ (by s _ (on_read_completed-Keeps bytes s.request)) (same s s refl)
step-Endures s write_completed =
    if-Endures _ s _ _ (by s _ (on_write_completed-Keeps s.request)) (same s s refl)
step-Endures s (ends t) = by s _ (on_terminal-Keeps t s.request)
step-Endures s (reads n ctx accepted) =
    by s _ (raw_read_round-Keeps n ctx accepted s.request s.request.pending refl)
step-Endures s worker_begins = same s _ (begin_upload-request s s.worker)
step-Endures s (upload_read n e accepted) = upload_step-Endures n e accepted s s.worker
step-Endures s worker_wakes = wake-Endures s s.worker
step-Endures s cleans = same s _ (clean-request s s.worker)

-- From any state and through any events, a request that was started stays started, one that is over
-- stays over, and the first error stays the one that readRawContext reports.
pub run-Lasts : (s : System) (es : List Event) → Lasts s.request (run s es).request
unfolding run
run-Lasts s [] = (same s s refl).request
run-Lasts s (e ∷ es) = ground (arith, (step-Endures s e).request, run-Lasts (step s e) es)
