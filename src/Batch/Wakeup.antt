-- ===== src/Batch/Wakeup.antt =====
-- Who waits on the buffer is woken by whatever changes it, and a close is final.
use cronet_go.Base.{
  ℕ, ◌≡◌, ◌≤◌, ◌<◌, refl, sym, ap, ◌∙◌, List, [], ◌∷◌, Option, none, some, true, false, arith, ltb,
  length, length-drop, if◌then◌else◌, Error,
}
use cronet_go.Batch.{
  Batch, returns, waits, or_closed_pipe, accept_open, accept, write_round, drain_round,
  close_with_error, Event, writes, drains, closes, System, step, run,
}

-- Every change of the buffer is signalled: where the channel is the old one, nothing has changed.
pub record Signals (b c : Batch) : Type 0 where
  pub grows : b.notify ≤ c.notify
  pub unchanged : b.notify ≡ c.notify → b ≡ c

write_round-Signals :
    (ctx : Option Error) (b : Batch) (p : List ℕ) (total : ℕ)
    → Signals b (write_round ctx b p total).batch
unfolding write_round accept accept_open
write_round-Signals none b p total = record { grows = ground arith; unchanged = ground arith }
write_round-Signals (some e) b p total = record { grows = ground arith; unchanged = ground arith }

drain_round-Signals : (b : Batch) → Signals b (drain_round b).batch
unfolding drain_round
drain_round-Signals b = record { grows = ground arith; unchanged = ground arith }

close-Signals : (e : Option Error) (b : Batch) → Signals b (close_with_error e b)
unfolding close_with_error
close-Signals e b = record { grows = ground arith; unchanged = ground arith }

Signals-refl : (b : Batch) → Signals b b
Signals-refl b = record { grows = omega arith; unchanged = λ e. refl }

Signals-trans : {a b c : Batch} → Signals a b → Signals b c → Signals a c
Signals-trans x y = record {
  grows = omega (arith, x.grows, y.grows);
  unchanged = λ e.
      x.unchanged (omega (arith, x.grows, y.grows, e))
      ∙ y.unchanged (omega (arith, x.grows, y.grows, e));
}

step-Signals : (p : List ℕ) (s : System) (e : Event) → Signals s.batch (step p s e).batch
unfolding step
step-Signals p s (writes ctx) =
    ground (arith, write_round-Signals ctx s.batch p s.total, Signals-refl s.batch)
step-Signals p s drains = drain_round-Signals s.batch
step-Signals p s (closes e) = close-Signals e s.batch

run-Signals : (p : List ℕ) (s : System) (es : List Event) → Signals s.batch (run p s es).batch
unfolding run
run-Signals p s [] = Signals-refl s.batch
run-Signals p s (e ∷ es) = Signals-trans (step-Signals p s e) (run-Signals p (step p s e) es)

-- No wakeup is lost. A Write or a drain that went to wait on a channel which, after any further rounds
-- of anybody, is still open would find nothing to do but to wait on it again.
pub waits-run :
    (p : List ℕ) (s : System) (es : List Event) (q : List ℕ) (total g : ℕ)
    → (run p s es).batch.notify ≡ s.batch.notify
    → ((write_round none s.batch q total).outcome ≡ waits g
        → (write_round none (run p s es).batch q total).outcome ≡ waits g)
      × ((drain_round s.batch).outcome ≡ waits g
          → (drain_round (run p s es).batch).outcome ≡ waits g)
waits-run p s es q total g e =
    let same = (run-Signals p s es).unchanged (sym e) in
    (
      λ w. ap (λ (b : Batch). (write_round none b q total).outcome) (sym same) ∙ w,
      λ w. ap (λ (b : Batch). (drain_round b).outcome) (sym same) ∙ w,
    )

-- A closed buffer stays closed, with its first error, and takes no more bytes.
pub record ShutWith (e : Option Error) (size : ℕ) (b : Batch) : Type 0 where
  pub shut : b.closed ≡ true
  pub why : b.close_err ≡ e
  pub no_more : length b.buffered ≤ size

step-ShutWith :
    (p : List ℕ) (s : System) (v : Event) (e : Option Error) (size : ℕ)
    → ShutWith e size s.batch
    → ShutWith e size (step p s v).batch
unfolding step write_round accept drain_round close_with_error
step-ShutWith p s (writes none) e size h = ground arith
step-ShutWith p s (writes (some x)) e size h = ground arith
step-ShutWith p s drains e size h =
    let b = s.batch in
    let n = if ltb b.limit (length b.buffered) then b.limit else length b.buffered in
    ground (arith, length-drop n b.buffered)
step-ShutWith p s (closes x) e size h = ground arith

run-ShutWith :
    (p : List ℕ) (s : System) (es : List Event) (e : Option Error) (size : ℕ)
    → ShutWith e size s.batch
    → ShutWith e size (run p s es).batch
unfolding run
run-ShutWith p s [] e size h = h
run-ShutWith p s (v ∷ es) e size h =
    run-ShutWith p (step p s v) es e size (step-ShutWith p s v e size h)

close-ShutWith :
    (e : Option Error) (b : Batch)
    → b.closed ≡ false
    → ShutWith e (length b.buffered) (close_with_error e b)
unfolding close_with_error
close-ShutWith e b is_open = ground arith

write_round-ShutWith :
    (e : Option Error) (size : ℕ) (b : Batch) (q : List ℕ) (total : ℕ)
    → ShutWith e size b
    → total < length q
    → (write_round none b q total).outcome ≡ returns (some (or_closed_pipe e))
unfolding write_round accept
write_round-ShutWith e size b q total h more = ground arith

-- The first close decides: after it, whatever else happens, the buffer never grows, and a Write with
-- bytes left and a live context fails with that close's error, io.ErrClosedPipe if it gave none.
pub close-run :
    (p : List ℕ) (s : System) (e : Option Error) (es : List Event) (q : List ℕ) (total : ℕ)
    → s.batch.closed ≡ false
    → total < length q
    → let s' = run p (step p s (closes e)) es in
      (length s'.batch.buffered ≤ length s.batch.buffered)
      × ((write_round none s'.batch q total).outcome ≡ returns (some (or_closed_pipe e)))
unfolding step
close-run p s e es q total is_open more =
    let h =
      run-ShutWith p (step p s (closes e)) es e (length s.batch.buffered)
        (close-ShutWith e s.batch is_open) in
    (h.no_more, write_round-ShutWith e _ _ q total h more)
