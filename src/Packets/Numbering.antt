-- ===== src/Packets/Numbering.antt =====
-- Packets are numbered in order, hold the accepted bytes in order, and stay within the slots.
use cronet_go.Base.{
  ℕ, suc, ◌+◌, ◌-◌, ◌%◌, ◌^◌, ◌≡◌, refl, sym, ap, ◌∙◌, subst, List, [], ◌∷◌, ◌++◌, Option, none,
  some, arith, ltb, length, take, drop, Error, append-nil, append_assoc, length-append, if_elim,
}
use cronet_go.Batch.{
  Batch, Round, returns, again, waits, Drained, bytes, ends, drain_round, write_round, new_batch,
}
use cronet_go.Batch.Taking.{
  Takes, drain_round-Takes, write_round-buffered, close_with_error-buffered,
}
use cronet_go.Packets.{
  Packet, Phase, checking, draining, stopped, pausing, waiting_slot, Worker, failing, fail_session,
  after_drain, post_packet, go_on, give_up, post_ends, Event, writes, closes, cancels, gives_up,
  goes_on, ends_post, write_some, step, run, without, find, start_packet_up,
}

abbrev pub payloads : List Packet → List ℕ
payloads [] = []
payloads ((n, c) ∷ ps) = c ++ payloads ps

payloads-append : (ps qs : List Packet) → payloads (ps ++ qs) ≡ payloads ps ++ payloads qs
payloads-append [] qs = refl
payloads-append ((n, c) ∷ ps) qs =
    ap (λ (t : List ℕ). c ++ t) (payloads-append ps qs)
    ∙ sym (append_assoc c (payloads ps) (payloads qs))

-- The piece that the worker holds, with its number, and the next number.
unfoldable pub IsHeld : Worker → Phase → List ℕ → Type 0
IsHeld w checking rest = (rest ≡ []) × (w.seq ≡ length w.sent % 2 ^ 64)
IsHeld w draining rest = (rest ≡ []) × (w.seq ≡ length w.sent % 2 ^ 64)
IsHeld w (pausing c) rest = (rest ≡ c) × (w.seq ≡ length w.sent % 2 ^ 64)
IsHeld w (waiting_slot (n, c)) rest =
    (rest ≡ c) × (n ≡ length w.sent % 2 ^ 64) × (w.seq ≡ suc (length w.sent) % 2 ^ 64)
IsHeld w stopped rest = Unit {0}

-- Packets numbered from `k` on.
abbrev pub Numbered : ℕ → List Packet → Type 0
Numbered k [] = Unit {0}
Numbered k ((n, c) ∷ ps) = (n ≡ k % 2 ^ 64) × Numbered (suc k) ps

Numbered-append :
    (k : ℕ) (ps : List Packet) (n : ℕ) (c : List ℕ)
    → Numbered k ps
    → n ≡ (k + length ps) % 2 ^ 64
    → Numbered k (ps ++ ((n, c) ∷ []))
Numbered-append k [] n c h e = (rw e (ap (λ (m : ℕ). m % 2 ^ 64) (omega arith)), tt)
Numbered-append k ((m, d) ∷ ps) n c (e, h) g =
    (e, Numbered-append (suc k) ps n c h (rw g (ap (λ (m : ℕ). m % 2 ^ 64) (omega arith))))

-- `rest` is the piece in the worker's hands, or one that it dropped when it stopped.
pub record InOrder (w : Worker) : Type 0 where
  pub rest : List ℕ
  pub held : IsHeld w w.phase rest
  pub conserved : w.accepted ≡ payloads w.sent ++ (rest ++ w.batch.buffered)
  pub numbered : Numbered 0 w.sent

fail_session-phase : (e : Error) (w : Worker) → (fail_session e w).phase ≡ w.phase
unfolding fail_session
fail_session-phase e w = ground arith

-- A failure touches none of what the order is about.
fail_session-InOrder : (e : Error) (w : Worker) → InOrder w → InOrder (fail_session e w)
unfolding fail_session IsHeld
fail_session-InOrder e w v =
    if_elim InOrder w.canceled w (failing e w) (λ on. v)
      (λ off. record {
        rest = v.rest;
        held = v.held;
        conserved =
            v.conserved
            ∙ ap (λ (t : List ℕ). payloads w.sent ++ (v.rest ++ t))
                (sym (close_with_error-buffered (some e) w.batch));
        numbered = v.numbered;
      })

module _ (w : Worker) (rest : List ℕ)
    (conserved : w.accepted ≡ payloads w.sent ++ (rest ++ w.batch.buffered))
    (numbered : Numbered 0 w.sent) where
  stopped-InOrder : InOrder (record w { phase = stopped })
  unfolding IsHeld
  stopped-InOrder = record { rest = rest; held = tt; conserved = conserved; numbered = numbered }

  after_drain-InOrder :
      (b : Batch) (outcome : Round Drained)
      → rest ≡ []
      → w.phase ≡ draining
      → w.seq ≡ length w.sent % 2 ^ 64
      → Takes w.batch b outcome
      → InOrder (after_drain w b outcome)
  unfolding after_drain IsHeld Takes
  after_drain-InOrder b (returns (bytes c)) e ph q t = record {
    rest = c;
    held = (refl, q);
    conserved = ground (arith, conserved);
    numbered = numbered;
  }
  after_drain-InOrder b (returns (ends x)) e ph q t = record {
    rest = [];
    held = tt;
    conserved = ground (arith, conserved);
    numbered = numbered;
  }
  after_drain-InOrder b again e ph q t = record {
    rest = [];
    held = rw ph (refl, q);
    conserved = ground (arith, conserved);
    numbered = numbered;
  }
  after_drain-InOrder b (waits n) e ph q t = record {
    rest = [];
    held = rw ph (refl, q);
    conserved = ground (arith, conserved);
    numbered = numbered;
  }

  post_packet-InOrder :
      (n : ℕ) (c : List ℕ) (result : Option Error)
      → rest ≡ c
      → n ≡ length w.sent % 2 ^ 64
      → w.seq ≡ suc (length w.sent) % 2 ^ 64
      → InOrder (post_packet w (n, c) result)
  unfolding post_packet IsHeld
  post_packet-InOrder n c none e en es = record {
    rest = [];
    held =
        (refl, es ∙ ap (λ (k : ℕ). k % 2 ^ 64) (omega (arith, length-append w.sent ((n, c) ∷ []))));
    conserved = ground (
      arith,
      conserved,
      payloads-append w.sent ((n, c) ∷ []),
      append_assoc (payloads w.sent) c w.batch.buffered,
      append-nil c,
    );
    numbered =
        Numbered-append 0 w.sent n c numbered (en ∙ ap (λ (k : ℕ). k % 2 ^ 64) (omega arith));
  }
  post_packet-InOrder n c (some x) e en es =
      fail_session-InOrder x (record w { phase = stopped })
        (record { rest = rest; held = tt; conserved = conserved; numbered = numbered })

  go_on-InOrder :
      (result : Option Error) (ph : Phase)
      → w.phase ≡ ph
      → IsHeld w ph rest
      → InOrder (go_on result w ph)
  unfolding go_on IsHeld
  go_on-InOrder result checking ph (e, q) =
      if_elim (λ (p : Phase). InOrder (record w { phase = p })) w.canceled stopped draining
        (λ on. record { rest = rest; held = tt; conserved = conserved; numbered = numbered })
        (λ off. record { rest = rest; held = (e, q); conserved = conserved; numbered = numbered })
  go_on-InOrder result draining ph (e, q) =
      after_drain-InOrder (drain_round w.batch).batch (drain_round w.batch).outcome e ph q
        (drain_round-Takes w.batch)
  go_on-InOrder result (pausing c) ph (e, q) = record {
    rest = rest;
    held = (e, q, rw q (omega arith));
    conserved = conserved;
    numbered = numbered;
  }
  go_on-InOrder result (waiting_slot (n, c)) ph (e, en, es) =
      if_elim InOrder (ltb (length w.in_flight) w.slots) _ _
        (λ free. post_packet-InOrder n c result e en es)
        (λ full. record {
          rest = rest;
          held = rw ph (e, en, es);
          conserved = conserved;
          numbered = numbered;
        })
  go_on-InOrder result stopped ph h = record {
    rest = rest;
    held = rw ph tt;
    conserved = conserved;
    numbered = numbered;
  }

  kept-InOrder : (ph : Phase) → w.phase ≡ ph → IsHeld w ph rest → InOrder w
  kept-InOrder ph e h = record {
    rest = rest;
    held = subst (λ (p : Phase). IsHeld w p rest) (sym e) h;
    conserved = conserved;
    numbered = numbered;
  }

  give_up-InOrder : (ph : Phase) → w.phase ≡ ph → IsHeld w ph rest → InOrder (give_up w ph)
  unfolding give_up
  give_up-InOrder checking e h = kept-InOrder checking e h
  give_up-InOrder draining e h = kept-InOrder draining e h
  give_up-InOrder stopped e h = kept-InOrder stopped e h
  give_up-InOrder (pausing c) e h =
      if_elim InOrder w.canceled (record w { phase = stopped }) w (λ on. stopped-InOrder)
        (λ off. kept-InOrder (pausing c) e h)
  give_up-InOrder (waiting_slot p) e h =
      if_elim InOrder w.canceled (record w { phase = stopped }) w (λ on. stopped-InOrder)
        (λ off. kept-InOrder (waiting_slot p) e h)

post_ends-InOrder :
    (n : ℕ) (result : Option Error) (w : Worker) (found : Option (List ℕ))
    → InOrder w
    → InOrder (post_ends n result w found)
unfolding post_ends IsHeld
post_ends-InOrder n result w none v = v
post_ends-InOrder n none w (some c) v = record {
  rest = v.rest;
  held = v.held;
  conserved = v.conserved;
  numbered = v.numbered;
}
post_ends-InOrder n (some e) w (some c) v =
    fail_session-InOrder e (record w { in_flight = without n w.in_flight })
      (record { rest = v.rest; held = v.held; conserved = v.conserved; numbered = v.numbered })

step-InOrder : (w : Worker) (e : Event) → InOrder w → InOrder (step w e)
unfolding step write_some IsHeld
step-InOrder w (writes ctx p total) v =
    let r = write_round ctx w.batch p total in
    let more = take (r.total - total) (drop total p) in
    record {
      rest = v.rest;
      held = v.held;
      conserved = ground (
        arith,
        v.conserved,
        write_round-buffered ctx w.batch p total,
        append_assoc v.rest w.batch.buffered more,
        append_assoc (payloads w.sent) (v.rest ++ w.batch.buffered) more,
      );
      numbered = v.numbered;
    }
step-InOrder w (closes e) v = record {
  rest = v.rest;
  held = v.held;
  conserved =
      v.conserved
      ∙ ap (λ (t : List ℕ). payloads w.sent ++ (v.rest ++ t))
          (sym (close_with_error-buffered e w.batch));
  numbered = v.numbered;
}
step-InOrder w cancels v = record {
  rest = v.rest;
  held = v.held;
  conserved = v.conserved;
  numbered = v.numbered;
}
step-InOrder w gives_up v = give_up-InOrder w v.rest v.conserved v.numbered w.phase refl v.held
step-InOrder w (goes_on result) v =
    go_on-InOrder w v.rest v.conserved v.numbered result w.phase refl v.held
step-InOrder w (ends_post n result) v = post_ends-InOrder n result w (find n w.in_flight) v

run-InOrder : (w : Worker) (es : List Event) → InOrder w → InOrder (run w es)
unfolding run
run-InOrder w [] v = v
run-InOrder w (e ∷ es) v = run-InOrder (step w e) es (step-InOrder w e v)

pub run-start-InOrder :
    (each posts : ℕ) (es : List Event) → InOrder (run (start_packet_up each posts) es)
unfolding start_packet_up IsHeld new_batch
run-start-InOrder each posts es =
    run-InOrder (start_packet_up each posts) es
      (record { rest = []; held = (refl, refl); conserved = refl; numbered = tt })
