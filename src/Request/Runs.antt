-- ===== src/Request/Runs.antt =====
-- A request through any history: it is destroyed once, and nothing uses it afterwards.
use cronet_go.Base.{
  ℕ, ◌-◌, ◌≡◌, ◌<◌, refl, ap, List, [], ◌∷◌, some, Bool, true, false, if◌then◌else◌, not, ◌&&◌,
  ◌==◌, arith, Error, drop,
}
use cronet_go.Conn.{shut}
use cronet_go.Request.{
  Callback, starts, start_read, cancels, upload_over, callback, terminal_callback, Request,
  new_request, submit, cancel_with_error, taken, read_round, System, Event, start_called,
  cancel_called, read_called, posts, posts_terminal, upload_ends, runs, step, run, initial,
}
use cronet_go.Request.Queue.{
  count, is_over, is_cleanup, Ends, Ends-append_one, Ends-append_other, added,
}
use cronet_go.Request.Lifecycle.{Sound, if-Sound, submit-Sound, run_next-Sound}

cancel_with_error-Sound :
    (over : Bool) (e : Error) (r : Request) → Sound over r → Sound over (cancel_with_error e r)
unfolding cancel_with_error
cancel_with_error-Sound over e r v =
    if-Sound over _ r _ (λ k. v)
      (λ k.
        submit-Sound over (cancels e) (record r { err = some e }) refl refl refl refl
          (ground arith))

taken-Sound : (over : Bool) (r : Request) → Sound over r → Sound over (taken r)
unfolding taken
taken-Sound over r v =
    if-Sound over _ _ r (λ k. submit-Sound over start_read r refl refl refl refl v) (λ k. v)

read_round-Sound :
    (over : Bool) (n : ℕ) (r : Request) (p : List ℕ)
    → r.pending ≡ p
    → Sound over r
    → Sound over (read_round n r).1
unfolding read_round
read_round-Sound over n r [] e v = ground arith
read_round-Sound over n r (x ∷ xs) e v =
    ground (arith, taken-Sound over (record r { pending = drop n (x ∷ xs) }) (ground arith))

posted-Sound :
    (over : Bool) (c : Callback) (r : Request)
    → over ≡ false
    → r.started ≡ true
    → Sound over r
    → Sound over (submit (callback c) r)
posted-Sound over c r off on v = ground (
  arith,
  added r.queue (callback c),
  Ends-append_one r.queue (callback c) (v.core.not_over off) v.core.ordered,
)

posted_terminal-Sound :
    (over : Bool) (e : Error) (r : Request)
    → over ≡ false
    → r.started ≡ true
    → Sound over r
    → Sound true (submit (terminal_callback e) r)
posted_terminal-Sound over e r off on v = ground (
  arith,
  added r.queue (terminal_callback e),
  Ends-append_one r.queue (terminal_callback e) (v.core.not_over off) v.core.ordered,
)

upload_ends-Sound :
    (over : Bool) (r : Request)
    → 0 < r.uploads
    → Sound over r
    → Sound over (submit upload_over (record r { uploads = r.uploads - 1 }))
upload_ends-Sound over r e v =
    ground
      (arith, added r.queue upload_over, Ends-append_other r.queue upload_over refl v.core.ordered)

pub record Whole (s : System) : Type 0 where
  pub sound : Sound s.over s.request

if-Whole :
    (b : Bool) (s t : System)
    → (b ≡ true → Whole s)
    → (b ≡ false → Whole t)
    → Whole (if b then s else t)
if-Whole true s t f g = f refl
if-Whole false s t f g = g refl

step-Whole : (s : System) (e : Event) → Whole s → Whole (step s e)
unfolding step
step-Whole s start_called w = record {
  sound = submit-Sound s.over starts s.request refl refl refl refl w.sound;
}
step-Whole s (cancel_called e) w = record {
  sound = cancel_with_error-Sound s.over e s.request w.sound;
}
step-Whole s (read_called n) w = record {
  sound = read_round-Sound s.over n s.request s.request.pending refl w.sound;
}
step-Whole s (posts c) w =
    if-Whole (s.request.started && not s.over)
      (record s { request = submit (callback c) s.request }) s
      (λ k. record {
        sound = posted-Sound s.over c s.request (ground arith) (ground arith) w.sound;
      })
      (λ k. w)
step-Whole s (posts_terminal e) w =
    if-Whole (s.request.started && not s.over)
      (record s { request = submit (terminal_callback e) s.request; over = true }) s
      (λ k. record {
        sound = posted_terminal-Sound s.over e s.request (ground arith) (ground arith) w.sound;
      })
      (λ k. w)
step-Whole s upload_ends w =
    if-Whole (s.request.uploads == 0) s
      (record s {
        request = submit upload_over (record (s.request) { uploads = s.request.uploads - 1 });
      })
      (λ k. w) (λ k. record { sound = upload_ends-Sound s.over s.request (ground arith) w.sound })
step-Whole s (runs accepted) w = record {
  sound = run_next-Sound s.over accepted s.request.queue s.request refl w.sound;
}

pub run-Whole : (s : System) (es : List Event) → Whole s → Whole (run s es)
unfolding run
run-Whole s [] w = w
run-Whole s (e ∷ es) w = run-Whole (step s e) es (step-Whole s e w)

-- Whatever is called, posted and run, in any order, on a request as newStreamingRequest makes it: no
-- native call is made after Destroy; Destroy is called at most once, by the one cleanup that is
-- submitted, and `done` is closed and onDone called with it; at that time the request is terminal and no
-- upload is under way; the order of the native callbacks in the queue is kept.
pub run-initial-Whole : (es : List Event) → Whole (run initial es)
unfolding new_request count Ends
run-initial-Whole es = run-Whole initial es (record { sound = ground arith })

-- Nothing is left behind: after any history, a request that is terminal, with no upload goroutine
-- running and an empty queue, has been destroyed, and `done` is closed.
pub drained_request :
    (es : List Event)
    → let r = (run initial es).request in
      r.terminal ≡ true
      → r.uploads ≡ 0
      → r.queue ≡ []
      → (r.native.destroys ≡ 1) × (r.done ≡ shut) × (r.done_calls ≡ 1)
unfolding count
drained_request es t u q =
    let v = (run-initial-Whole es).sound in
    let overs = ap (count is_over) q in
    let cleanups = ap (count is_cleanup) q in ground (arith, v, overs, cleanups)
