-- ===== src/Session/Writing.antt =====
-- A session's Write neither loses nor repeats a byte, however often its deadline is replaced.
use cronet_go.Base.{
  ℕ, zero, suc, ◌+◌, ◌-◌, ◌≤◌, ◌≡◌, refl, sym, ap, ◌∙◌, List, [], ◌∷◌, ◌++◌, Option, none, some,
  arith, length, take, drop, concat, Error, length-drop, append-nil, append_assoc,
}
use cronet_go.Batch
use cronet_go.Batch.{
  Batch, Round, returns, again, waits, Drained, bytes, ends, WriteRound, DrainRound, write_round,
  accept, accept_open, drain_round, close_with_error,
}
use cronet_go.Batch.Taking.{
  Takes, drain_round-Takes, write_round-buffered, write_round-total, close_with_error-buffered,
  concat-append_one,
}
use cronet_go.Session.{
  Seen, Verdict, retries, gives, settle, judge, Attempt, Written, attempt_on, carry, conclude,
  unless_failed, write_loop, start_write,
}

-- Of a slice `p`, after `total` bytes: what was buffered at first and the accepted front are what was
-- drained and what is buffered, and a Write that has returned nil has accepted all.
record Flow (first : List ℕ) (p : List ℕ) (s : Batch.System) : Type 0 where
  accepted : s.total ≤ length p
  conserved : first ++ take s.total p ≡ concat s.drained ++ s.batch.buffered
  finished : s.returned ≡ some none → s.total ≡ length p

take-plus : (m n : ℕ) (xs : List ℕ) → take (m + n) xs ≡ take m xs ++ take n (drop m xs)
take-plus zero n xs = let e : zero + n ≡ n = omega arith in ap (λ k. take k xs) e
take-plus (suc m) zero [] =
    let e : suc m + zero ≡ suc m = omega arith in ap (λ k. take {A = ℕ} k []) e
take-plus (suc m) (suc n) [] =
    let e : suc m + suc n ≡ suc (m + suc n) = omega arith in ap (λ k. take {A = ℕ} k []) e
take-plus (suc m) n (x ∷ xs) =
    let e : suc m + n ≡ suc (m + n) = omega arith in
    ap (λ k. take k (x ∷ xs)) e ∙ ap (◌∷◌ x) (take-plus m n xs)

-- What a Write returned, from how its last round ended.
outcome-nil :
    (o : Round (Option Error))
    → elim o as (λ _. Option (Option Error)) [ returns e ↦ some e | again ↦ none | waits n ↦ none ]
      ≡ some none
    → o ≡ returns none
outcome-nil (returns e) h = ap returns (some_inj h)
  where
    some_inj : some e ≡ some none → e ≡ none
    some_inj q = cc q
outcome-nil again h = cc h
outcome-nil (waits n) h = cc h

module _ (first p : List ℕ) (s : Batch.System) (f : Flow first p s) where
  after_write-Flow :
      (ctx : Option Error) → Flow first p (Batch.after_write s (write_round ctx s.batch p s.total))
  after_write-Flow ctx =
      let r = write_round ctx s.batch p s.total in
      let t = write_round-total ctx s.batch p s.total f.accepted in
      let more = take (r.total - s.total) (drop s.total p) in
      let sum : r.total ≡ s.total + (r.total - s.total) = omega (arith, t) in
      record {
        accepted = t.0;
        conserved =
            ap (λ k. first ++ take k p) sum
            ∙ ap (◌++◌ first) (take-plus s.total (r.total - s.total) p)
            ∙ sym (append_assoc first (take s.total p) more)
            ∙ ap (λ (x : List ℕ). x ++ more) f.conserved
            ∙ append_assoc (concat s.drained) s.batch.buffered more
            ∙ ap (◌++◌ (concat s.drained)) (sym (write_round-buffered ctx s.batch p s.total));
        finished = λ h. t.2 (outcome-nil r.outcome h);
      }

  writes-Flow :
      (ctx : Option Error) (r : Option (Option Error))
      → s.returned ≡ r
      → Flow first p (Batch.step p s (Batch.writes ctx))
  unfolding Batch.step
  writes-Flow ctx none e = rw (e, Batch.step) (after_write-Flow ctx)
  writes-Flow ctx (some x) e = rw (e, Batch.step) f

  after_drain-Flow :
      (b : Batch) (o : Round Drained)
      → Takes s.batch b o
      → Flow first p (Batch.after_drain s (record { batch = b; outcome = o }))
  unfolding Takes
  after_drain-Flow b (returns (bytes c)) t = record {
    accepted = f.accepted;
    conserved =
        f.conserved
        ∙ ap (◌++◌ (concat s.drained)) t
        ∙ sym (append_assoc (concat s.drained) c b.buffered)
        ∙ ap (λ (x : List ℕ). x ++ b.buffered) (sym (concat-append_one s.drained c));
    finished = f.finished;
  }
  after_drain-Flow b (returns (ends e)) t = record {
    accepted = f.accepted;
    conserved = f.conserved ∙ ap (◌++◌ (concat s.drained)) (sym t);
    finished = f.finished;
  }
  after_drain-Flow b again t = record {
    accepted = f.accepted;
    conserved = f.conserved ∙ ap (◌++◌ (concat s.drained)) (sym t);
    finished = f.finished;
  }
  after_drain-Flow b (waits n) t = record {
    accepted = f.accepted;
    conserved = f.conserved ∙ ap (◌++◌ (concat s.drained)) (sym t);
    finished = f.finished;
  }

step-Flow :
    (first p : List ℕ) (s : Batch.System) (e : Batch.Event)
    → Flow first p s
    → Flow first p (Batch.step p s e)
unfolding Batch.step
step-Flow first p s (Batch.writes ctx) f = writes-Flow first p s f ctx s.returned refl
step-Flow first p s Batch.drains f =
    after_drain-Flow first p s f (drain_round s.batch).batch (drain_round s.batch).outcome
      (drain_round-Takes s.batch)
step-Flow first p s (Batch.closes e) f = record {
  accepted = f.accepted;
  conserved =
      f.conserved ∙ ap (◌++◌ (concat s.drained)) (sym (close_with_error-buffered e s.batch));
  finished = f.finished;
}

run-Flow :
    (first p : List ℕ) (s : Batch.System) (es : List Batch.Event)
    → Flow first p s
    → Flow first p (Batch.run p s es)
unfolding Batch.run
run-Flow first p s [] f = f
run-Flow first p s (e ∷ es) f = run-Flow first p (Batch.step p s e) es (step-Flow first p s e f)

-- A Write of `p` that began with `first` in the buffer.
pub record Faithful (first p : List ℕ) (w : Written) : Type 0 where
  pub accepted : w.total ≤ length p
  pub conserved : first ++ take w.total p ≡ concat w.drained ++ w.batch.buffered
  pub finished : w.returned ≡ some none → w.total ≡ length p

module _ (first p : List ℕ) where
  -- A writeContext on what is left of the slice, after rounds that returned nothing.
  attempt_on-Flow :
      (w : Written) (es : List Batch.Event)
      → Faithful first p w
      → Flow (first ++ take w.total p) (drop w.total p) (attempt_on p w es)
  unfolding attempt_on
  attempt_on-Flow w es f = run-Flow (first ++ take w.total p) (drop w.total p) _ es (record {
    accepted = omega arith;
    conserved = append-nil (first ++ take w.total p) ∙ f.conserved;
    finished = λ h. cc h;
  })

  carry-Faithful :
      (w : Written) (s : Batch.System) (r : Option (Option Error))
      → Faithful first p w
      → Flow (first ++ take w.total p) (drop w.total p) s
      → (r ≡ some none → s.returned ≡ some none)
      → Faithful first p (carry w s r)
  carry-Faithful w s r f g back = record {
    accepted = omega (arith, g.accepted, length-drop w.total p, f.accepted);
    conserved =
        ap (◌++◌ first) (take-plus w.total s.total p)
        ∙ sym (append_assoc first (take w.total p) (take s.total (drop w.total p)))
        ∙ g.conserved;
    finished = λ h. omega (arith, g.finished (back h), length-drop w.total p, f.accepted);
  }

-- Only a nil result is given on as nil.
settle-nil : (seen : Seen) (e : Option Error) → settle seen e ≡ gives none → e ≡ none
unfolding settle judge
settle-nil seen none h = refl
settle-nil seen (some e) h = ground arith

given-nil : (r : Option Error) → some r ≡ some none → r ≡ none
given-nil r h = cc h

module _ (first p : List ℕ) where
  conclude-Faithful :
      (w : Written) (s : Batch.System) (seen : Seen) (loop : Written → Written)
      (r : Option (Option Error))
      → s.returned ≡ r
      → Faithful first p w
      → Flow (first ++ take w.total p) (drop w.total p) s
      → ((v : Written) → Faithful first p v → Faithful first p (loop v))
      → Faithful first p (conclude w s seen loop r)
  unfolding conclude
  conclude-Faithful w s seen loop none e f g l = carry-Faithful first p w s none f g (λ h. cc h)
  conclude-Faithful w s seen loop (some x) e f g l = by_verdict (settle seen x) refl
    where
      by_verdict :
          (v : Verdict)
          → settle seen x ≡ v
          → Faithful first p (elim v as (λ _. Written) [
            | retries ↦ loop (carry w s none)
            | gives q ↦ carry w s (some q)
          ])
      by_verdict retries q = l (carry w s none) (carry-Faithful first p w s none f g (λ h. cc h))
      by_verdict (gives o) q =
          carry-Faithful first p w s (some o) f g
            (λ h. e ∙ ap some (settle-nil seen x (q ∙ ap gives (given-nil o h))))

  unless_failed-Faithful :
      (b : Option Error) (w next : Written)
      → Faithful first p w
      → Faithful first p next
      → Faithful first p (unless_failed b w next)
  unfolding unless_failed
  unless_failed-Faithful none w next f g = g
  unless_failed-Faithful (some e) w next f g = record {
    accepted = f.accepted;
    conserved = f.conserved;
    finished = λ h. cc (given-nil (some e) h);
  }

  write_loop-Faithful :
      (rounds : List Attempt) (w : Written)
      → Faithful first p w
      → Faithful first p (write_loop p w rounds)
  unfolding write_loop
  write_loop-Faithful [] w f = f
  write_loop-Faithful (a ∷ rest) w f =
      let s = attempt_on p w a.events in
      unless_failed-Faithful a.seen.before w _ f (
        conclude-Faithful w s a.seen (λ v. write_loop p v rest) s.returned refl f
          (attempt_on-Flow first p w a.events f) (λ v g. write_loop-Faithful rest v g))

-- However the deadline of a session is replaced during a Write, and whatever the worker and closes do
-- meanwhile: the bytes that were buffered before and the front of the slice that Write has accepted are,
-- in order, those that were drained and those still buffered, and Write returns nil only when it has
-- accepted the whole slice.
pub write_loop-start_write-Faithful :
    (b : Batch) (p : List ℕ) (rounds : List Attempt)
    → Faithful b.buffered p (write_loop p (start_write b) rounds)
write_loop-start_write-Faithful b p rounds =
    write_loop-Faithful b.buffered p rounds (start_write b)
      (record { accepted = omega arith; conserved = append-nil b.buffered; finished = λ h. cc h })
