-- ===== src/Packets/Accounts.antt =====
-- While the upload has not been cancelled, each packet that was sent is under way or has arrived.
use cronet_go.Base.{
  ℕ, ◌≡◌, ◌≢◌, refl, List, [], ◌∷◌, ◌++◌, Option, none, some, Bool, true, false, ◌||◌, arith, ltb,
  if◌then◌else◌, length, All, Error, if_elim, ◌==◌,
}
use cronet_go.Batch.{Batch, Round, returns, again, waits, Drained, bytes, ends, drain_round}
use cronet_go.Packets.{
  Packet, Phase, checking, draining, stopped, pausing, waiting_slot, Worker, failing, fail_session,
  after_drain, post_packet, go_on, give_up, post_ends, Event, writes, closes, cancels, gives_up,
  goes_on, ends_post, write_some, step, run, without, find, start_packet_up,
}

-- Whether a list has a packet of this number.
unfoldable pub has : ℕ → List Packet → Bool
has n [] = false
has n ((m, c) ∷ ps) = (m == n) || has n ps

pub has-find : (n : ℕ) (ps : List Packet) → has n ps ≡ true → find n ps ≢ none
unfolding has find
has-find n [] h = cc
has-find n ((m, c) ∷ ps) h = ground (arith, has-find n ps)

has-append : (n : ℕ) (ps qs : List Packet) → has n (ps ++ qs) ≡ (has n ps || has n qs)
unfolding has
has-append n [] qs = refl
has-append n ((m, c) ∷ ps) qs = ground (arith, has-append n ps qs)

has-without : (n m : ℕ) (ps : List Packet) → n ≢ m → has m (without n ps) ≡ has m ps
unfolding has without
has-without n m [] d = refl
has-without n m ((k, c) ∷ ps) d = ground (arith, has-without n m ps d)

-- A number under way or arrived.
abbrev pub Live : List Packet → List Packet → Packet → Type 0
Live flying came p = (has p.0 flying || has p.0 came) ≡ true

All_Live-sent :
    (ps flying came : List Packet) (q : Packet)
    → All (Live flying came) ps
    → All (Live (flying ++ (q ∷ [])) came) (ps ++ (q ∷ []))
unfolding has
All_Live-sent [] flying came (n, c) h = (ground (arith, has-append n flying ((n, c) ∷ [])), tt)
All_Live-sent (p ∷ ps) flying came q (e, h) =
    (ground (arith, has-append p.0 flying (q ∷ [])), All_Live-sent ps flying came q h)

All_Live-ended :
    (ps flying came : List Packet) (n : ℕ) (c : List ℕ)
    → All (Live flying came) ps
    → All (Live (without n flying) (came ++ ((n, c) ∷ []))) ps
unfolding has
All_Live-ended [] flying came n c h = tt
All_Live-ended (p ∷ ps) flying came n c (e, h) = (
  ground (arith, has-append p.0 came ((n, c) ∷ []), has-without n p.0 flying),
  All_Live-ended ps flying came n c h,
)

pub record Accounted (w : Worker) : Type 0 where
  pub live : w.canceled ≡ false → All (Live w.in_flight w.arrived) w.sent

fail_session-Accounted :
    (e : Error) (w : Worker) → (w.canceled ≡ true → Accounted w) → Accounted (fail_session e w)
unfolding fail_session
fail_session-Accounted e w v =
    if_elim Accounted w.canceled w (failing e w) v (λ off. record { live = λ h. cc h })

after_drain-Accounted :
    (w : Worker) (b : Batch) (o : Round Drained) → Accounted w → Accounted (after_drain w b o)
unfolding after_drain
after_drain-Accounted w b (returns (bytes c)) v = record { live = v.live }
after_drain-Accounted w b (returns (ends e)) v = record { live = v.live }
after_drain-Accounted w b again v = record { live = v.live }
after_drain-Accounted w b (waits n) v = record { live = v.live }

post_packet-Accounted :
    (w : Worker) (p : Packet) (result : Option Error)
    → Accounted w
    → Accounted (post_packet w p result)
unfolding post_packet
post_packet-Accounted w p none v = record {
  live = λ off. All_Live-sent w.sent w.in_flight w.arrived p (v.live off);
}
post_packet-Accounted w p (some e) v =
    fail_session-Accounted e (record w { phase = stopped }) (λ on. record { live = v.live })

go_on-Accounted :
    (result : Option Error) (w : Worker) (ph : Phase) → Accounted w → Accounted (go_on result w ph)
unfolding go_on
go_on-Accounted result w checking v = record { live = v.live }
go_on-Accounted result w draining v =
    after_drain-Accounted w (drain_round w.batch).batch (drain_round w.batch).outcome v
go_on-Accounted result w (pausing c) v = record { live = v.live }
go_on-Accounted result w (waiting_slot p) v =
    if_elim Accounted (ltb (length w.in_flight) w.slots) (post_packet w p result) w
      (λ free. post_packet-Accounted w p result v) (λ full. v)
go_on-Accounted result w stopped v = v

stop_if-Accounted :
    (w : Worker) → Accounted w → Accounted (if w.canceled then record w { phase = stopped } else w)
stop_if-Accounted w v =
    if_elim Accounted w.canceled (record w { phase = stopped }) w (λ on. record { live = v.live })
      (λ off. v)

give_up-Accounted : (w : Worker) (ph : Phase) → Accounted w → Accounted (give_up w ph)
unfolding give_up
give_up-Accounted w checking v = v
give_up-Accounted w draining v = v
give_up-Accounted w stopped v = v
give_up-Accounted w (pausing c) v = stop_if-Accounted w v
give_up-Accounted w (waiting_slot p) v = stop_if-Accounted w v

post_ends-Accounted :
    (n : ℕ) (result : Option Error) (w : Worker) (found : Option (List ℕ))
    → Accounted w
    → Accounted (post_ends n result w found)
unfolding post_ends
post_ends-Accounted n result w none v = v
post_ends-Accounted n none w (some c) v = record {
  live = λ off. All_Live-ended w.sent w.in_flight w.arrived n c (v.live off);
}
post_ends-Accounted n (some e) w (some c) v =
    fail_session-Accounted e (record w { in_flight = without n w.in_flight })
      (λ on. record { live = λ off. cc (on, off) })

step-Accounted : (w : Worker) (e : Event) → Accounted w → Accounted (step w e)
unfolding step write_some
step-Accounted w (writes ctx p total) v = record { live = v.live }
step-Accounted w (closes e) v = record { live = v.live }
step-Accounted w cancels v = record { live = λ h. cc h }
step-Accounted w gives_up v = give_up-Accounted w w.phase v
step-Accounted w (goes_on result) v = go_on-Accounted result w w.phase v
step-Accounted w (ends_post n result) v = post_ends-Accounted n result w (find n w.in_flight) v

run-Accounted : (w : Worker) (es : List Event) → Accounted w → Accounted (run w es)
unfolding run
run-Accounted w [] v = v
run-Accounted w (e ∷ es) v = run-Accounted (step w e) es (step-Accounted w e v)

pub run-start-Accounted :
    (each posts : ℕ) (es : List Event) → Accounted (run (start_packet_up each posts) es)
unfolding start_packet_up
run-start-Accounted each posts es =
    run-Accounted (start_packet_up each posts) es (record { live = λ off. tt })
