-- ===== src/Request/Lifecycle.antt =====
-- The end of a request: one cleanup, after the terminal callback and the last upload.
use cronet_go.Base.{
  ℕ, ◌+◌, ◌-◌, ◌≡◌, refl, ap, List, [], ◌∷◌, none, some, Bool, true, false, if◌then◌else◌, ◌==◌,
  arith, ◌∙◌, Error, ◌⊎◌, inl, inr, eof,
}
use cronet_go.Conn.{live, shut}
use cronet_go.Request.{
  Callback, redirected, response_started, read_completed, upload_asked, Task, starts, start_read,
  cancels, cleans_up, upload_over, callback, terminal_callback, Request, is_some, or_keep, submit,
  touched, native_cancel, cleanup, finish, fail, start_reading, starting, cancelling, cleaning_up,
  on_callback, run_task, run_next, read_failed, start_failed, redirect_failed, unexpected_redirect,
  bad_status,
}
use cronet_go.Request.Queue.{
  count, is_callback, is_last, is_over, is_cleanup, Ends, Ends-append_other, added, popped,
  Ends-tail,
}

pub record Core (over : Bool) (r : Request) : Type 0 where
  -- No native call is made on a destroyed request.
  pub proper : r.native.misused ≡ false
  pub explained : r.terminal ≡ true → is_some r.err ≡ true
  -- Native callbacks: none before the start, none after the terminal one, none at a terminal request.
  pub unstarted : r.started ≡ false → (count is_callback r.queue ≡ 0) × (over ≡ false)
  pub not_over : over ≡ false → count is_last r.queue ≡ 0
  pub ordered : Ends r.queue
  pub ended : r.terminal ≡ true → count is_callback r.queue ≡ 0
  pub why : r.terminal ≡ true → (r.started ≡ false) ⊎ (over ≡ true)
  -- Uploads that are under way, or whose task is in the queue.
  pub active : r.active_uploads ≡ r.uploads + count is_over r.queue
  -- The cleanup is submitted once, when nothing is under way, and destroys once.
  pub cleanups : count is_cleanup r.queue + r.native.destroys ≡ (if r.cleanup_queued then 1 else 0)
  pub cleanup_last : r.cleanup_queued ≡ true → (r.terminal ≡ true) × (r.active_uploads ≡ 0)
  pub done_is : r.done ≡ (if r.native.destroys == 0 then live else shut)
  pub done_calls_are : r.done_calls ≡ r.native.destroys

pub record Sound (over : Bool) (r : Request) : Type 0 where
  pub core : Core over r
  -- A request that is over and has no upload left is cleaned up.
  pub cleanup_due : r.terminal ≡ true → r.active_uploads ≡ 0 → r.cleanup_queued ≡ true

-- A task that is no callback and no cleanup, put behind the others.
submit-Core :
    (over : Bool) (t : Task) (r : Request)
    → is_callback t ≡ 0
    → is_last t ≡ 0
    → is_over t ≡ 0
    → is_cleanup t ≡ 0
    → Core over r
    → Core over (submit t r)
submit-Core over t r a b c d v =
    let q = added r.queue t in
    record {
      proper = v.proper;
      explained = v.explained;
      unstarted = λ e. (omega (arith, q.callbacks, a, (v.unstarted e).0), (v.unstarted e).1);
      not_over = λ e. omega (arith, q.lasts, b, v.not_over e);
      ordered = Ends-append_other r.queue t a v.ordered;
      ended = λ e. omega (arith, q.callbacks, a, v.ended e);
      why = v.why;
      active = omega (arith, v.active, q.overs, c);
      cleanups = ap (λ (n : ℕ). n + r.native.destroys) (omega (arith, q.cleanups, d)) ∙ v.cleanups;
      cleanup_last = v.cleanup_last;
      done_is = v.done_is;
      done_calls_are = v.done_calls_are;
    }

pub submit-Sound :
    (over : Bool) (t : Task) (r : Request)
    → is_callback t ≡ 0
    → is_last t ≡ 0
    → is_over t ≡ 0
    → is_cleanup t ≡ 0
    → Sound over r
    → Sound over (submit t r)
submit-Sound over t r a b c d v = record {
  core = submit-Core over t r a b c d v.core;
  cleanup_due = v.cleanup_due;
}

cleanup-Sound : (over : Bool) (r : Request) → Core over r → Sound over (cleanup r)
unfolding cleanup
cleanup-Sound over r v =
    ground (arith, added r.queue cleans_up, Ends-append_other r.queue cleans_up refl v.ordered)

pub if-Sound :
    (over b : Bool) (r t : Request)
    → (b ≡ true → Sound over r)
    → (b ≡ false → Sound over t)
    → Sound over (if b then r else t)
if-Sound over true r t f g = f refl
if-Sound over false r t f g = g refl

ended-Core :
    (over : Bool) (e : Error) (r : Request)
    → r.terminal ≡ false
    → count is_callback r.queue ≡ 0
    → (r.started ≡ false) ⊎ (over ≡ true)
    → Sound over r
    → Core over (record r { terminal = true; err = or_keep r.err e })
ended-Core over e r go none_left why v = ground arith

finish-Sound :
    (over : Bool) (e : Error) (r : Request)
    → count is_callback r.queue ≡ 0
    → (r.started ≡ false) ⊎ (over ≡ true)
    → Sound over r
    → Sound over (finish e r)
unfolding finish
finish-Sound over e r none_left why v =
    let r' = record r { terminal = true; err = or_keep r.err e } in
    if-Sound over r.terminal r (cleanup r') (λ stop. v)
      (λ go. cleanup-Sound over r' (ended-Core over e r go none_left why v))

fail-Sound :
    (over : Bool) (e : Error) (r : Request)
    → r.terminal ≡ false
    → Sound over r
    → Sound over (fail e r)
unfolding fail
fail-Sound over e r going v = ground arith

touched-Sound :
    (over : Bool) (r : Request)
    → r.terminal ≡ false
    → Sound over r
    → Sound over (record r { native = touched r.native })
touched-Sound over r going v = ground arith

start_reading-Sound :
    (over accepted : Bool) (r : Request) → Sound over r → Sound over (start_reading accepted r)
unfolding start_reading
start_reading-Sound over true r v = ground arith
start_reading-Sound over false r v =
    if-Sound over _ r (fail read_failed (record r { native = touched r.native })) (λ stop. v)
      (λ go.
        let going : r.terminal ≡ false = ground arith in
        fail-Sound over read_failed (record r { native = touched r.native }) going
          (touched-Sound over r going v))

starting-Sound :
    (over accepted : Bool) (r : Request) → Sound over r → Sound over (starting accepted r)
unfolding starting
starting-Sound over true r v = ground arith
starting-Sound over false r v =
    if-Sound over _ r (finish start_failed (record r { native = touched r.native })) (λ stop. v)
      (λ go.
        let going : r.terminal ≡ false = ground arith in
        let off : r.started ≡ false = ground arith in
        finish-Sound over start_failed (record r { native = touched r.native })
          (v.core.unstarted off).0 (inl off) (touched-Sound over r going v))

cancelling-Sound :
    (over : Bool) (e : Error) (r : Request) → Sound over r → Sound over (cancelling e r)
unfolding cancelling
cancelling-Sound over e r v =
    if-Sound over r.terminal r _ (λ stop. v)
      (λ go.
        if-Sound over r.started (record r { native = native_cancel r.native }) (finish e r)
          (λ on. ground arith) (λ off. finish-Sound over e r (v.core.unstarted off).0 (inl off) v))

on_callback-Sound :
    (over accepted : Bool) (c : Callback) (r : Request)
    → r.terminal ≡ false
    → r.started ≡ true
    → Sound over r
    → Sound over (on_callback accepted c r)
unfolding on_callback
on_callback-Sound over accepted (redirected none) r e on v =
    fail-Sound over unexpected_redirect r e v
on_callback-Sound over true (redirected (some true)) r e on v = touched-Sound over r e v
on_callback-Sound over false (redirected (some true)) r e on v =
    fail-Sound over redirect_failed (record r { native = touched r.native }) e
      (touched-Sound over r e v)
on_callback-Sound over accepted (redirected (some false)) r e on v = fail-Sound over eof r e v
on_callback-Sound over accepted (response_started true k) r e on v =
    start_reading-Sound over accepted r v
on_callback-Sound over accepted (response_started false k) r e on v =
    if-Sound over k _ _ (λ h. start_reading-Sound over accepted r v)
      (λ h. fail-Sound over bad_status r e v)
on_callback-Sound over accepted (read_completed []) r e on v =
    submit-Sound over start_read (record r { read_pending = false; pending = [] }) refl refl refl
      refl (ground arith)
on_callback-Sound over accepted (read_completed (x ∷ bytes)) r e on v = ground arith
on_callback-Sound over accepted upload_asked r e on v = ground arith

popped-Sound :
    (over : Bool) (t : Task) (q : List Task) (r : Request)
    → r.queue ≡ t ∷ q
    → is_over t ≡ 0
    → is_cleanup t ≡ 0
    → Sound over r
    → Sound over (record r { queue = q })
popped-Sound over t q r e a b v =
    ground (arith, popped r.queue q t e, Ends-tail r.queue q t e v.core.ordered)

callback-Sound :
    (over accepted : Bool) (c : Callback) (q : List Task) (r : Request)
    → r.queue ≡ callback c ∷ q
    → Sound over r
    → Sound over (on_callback accepted c (record r { queue = q }))
callback-Sound over accepted c q r e v =
    let k = popped r.queue q (callback c) e in
    on_callback-Sound over accepted c (record r { queue = q }) (ground (arith, k))
      (ground (arith, k)) (popped-Sound over (callback c) q r e refl refl v)

terminal_callback-Sound :
    (over : Bool) (x : Error) (q : List Task) (r : Request)
    → r.queue ≡ terminal_callback x ∷ q
    → Sound over r
    → Sound over (finish x (record r { queue = q }))
terminal_callback-Sound over x q r e v =
    let k = popped r.queue q (terminal_callback x) e in
    let behind = Ends-tail r.queue q (terminal_callback x) e v.core.ordered in
    finish-Sound over x (record r { queue = q }) (behind.0 refl) (inr (ground (arith, k)))
      (popped-Sound over (terminal_callback x) q r e refl refl v)

upload_over-Sound :
    (over : Bool) (q : List Task) (r : Request)
    → r.queue ≡ upload_over ∷ q
    → Sound over r
    → Sound over (cleanup (record r { queue = q; active_uploads = r.active_uploads - 1 }))
upload_over-Sound over q r e v =
    let k = popped r.queue q upload_over e in
    cleanup-Sound over (record r { queue = q; active_uploads = r.active_uploads - 1 })
      (ground (arith, k, Ends-tail r.queue q upload_over e v.core.ordered))

cleaning_up-Sound :
    (over : Bool) (q : List Task) (r : Request)
    → r.queue ≡ cleans_up ∷ q
    → Sound over r
    → Sound over (cleaning_up (record r { queue = q }))
unfolding cleaning_up
cleaning_up-Sound over q r e v =
    ground (arith, popped r.queue q cleans_up e, Ends-tail r.queue q cleans_up e v.core.ordered)

pub run_next-Sound :
    (over accepted : Bool) (q : List Task) (r : Request)
    → r.queue ≡ q
    → Sound over r
    → Sound over (run_next accepted q r)
unfolding run_next run_task
run_next-Sound over accepted [] r e v = v
run_next-Sound over accepted (starts ∷ q) r e v =
    starting-Sound over accepted (record r { queue = q })
      (popped-Sound over starts q r e refl refl v)
run_next-Sound over accepted (start_read ∷ q) r e v =
    start_reading-Sound over accepted (record r { queue = q })
      (popped-Sound over start_read q r e refl refl v)
run_next-Sound over accepted (cancels x ∷ q) r e v =
    cancelling-Sound over x (record r { queue = q })
      (popped-Sound over (cancels x) q r e refl refl v)
run_next-Sound over accepted (cleans_up ∷ q) r e v = cleaning_up-Sound over q r e v
run_next-Sound over accepted (upload_over ∷ q) r e v = upload_over-Sound over q r e v
run_next-Sound over accepted (callback c ∷ q) r e v = callback-Sound over accepted c q r e v
run_next-Sound over accepted (terminal_callback x ∷ q) r e v =
    terminal_callback-Sound over x q r e v
