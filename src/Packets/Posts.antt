-- ===== src/Packets/Posts.antt =====
-- The posts of packets: those under way and those that succeeded were sent, within the slots.
use cronet_go.Base.{
  ℕ, zero, suc, ◌≤◌, ◌<◌, ◌≡◌, refl, List, [], ◌∷◌, ◌++◌, Option, none, some, arith, ltb,
  if◌then◌else◌, length, All, Error, length-append, inl, inr, if_elim, ◌==◌, get_elem?, Bool-cases,
}
use cronet_go.Batch.{Batch, Round, returns, again, waits, Drained, bytes, ends, drain_round}
use cronet_go.Packets.{
  Packet, Phase, checking, draining, stopped, pausing, waiting_slot, Worker, failing, fail_session,
  after_drain, post_packet, go_on, give_up, post_ends, Event, writes, closes, cancels, gives_up,
  goes_on, ends_post, write_some, step, run, without, find, start_packet_up, slot_limit,
}

-- A packet among those that were sent.
abbrev pub Posted : List Packet → Packet → Type 0
Posted sent p = (k : ℕ) × (get_elem? sent k ≡ some p)

get_elem?-append :
    (k : ℕ) (ps qs : List Packet) (p : Packet)
    → get_elem? ps k ≡ some p
    → get_elem? (ps ++ qs) k ≡ some p
get_elem?-append k [] qs p e = cc
get_elem?-append zero (x ∷ ps) qs p e = e
get_elem?-append (suc k) (x ∷ ps) qs p e = get_elem?-append k ps qs p e

get_elem?-last : (ps : List Packet) (p : Packet) → get_elem? (ps ++ (p ∷ [])) (length ps) ≡ some p
get_elem?-last [] p = refl
get_elem?-last (x ∷ ps) p = get_elem?-last ps p

All_Posted-append : (sent qs ps : List Packet) → All (Posted sent) ps → All (Posted (sent ++ qs)) ps
All_Posted-append sent qs [] h = tt
All_Posted-append sent qs (p ∷ ps) ((k, e), h) =
    ((k, get_elem?-append k sent qs p e), All_Posted-append sent qs ps h)

All_Posted-last :
    (sent ps : List Packet) (p : Packet)
    → All (Posted sent) ps
    → Posted sent p
    → All (Posted sent) (ps ++ (p ∷ []))
All_Posted-last sent [] p h q = (q, tt)
All_Posted-last sent (x ∷ ps) p (e, h) q = (e, All_Posted-last sent ps p h q)

All_Posted-without :
    (n : ℕ) (sent ps : List Packet) → All (Posted sent) ps → All (Posted sent) (without n ps)
unfolding without
All_Posted-without n sent [] h = tt
All_Posted-without n sent ((m, c) ∷ ps) (e, h) =
    if_elim (All (Posted sent)) (m == n) ps ((m, c) ∷ without n ps) (λ same. h)
      (λ other. (e, All_Posted-without n sent ps h))

length-without : (n : ℕ) (ps : List Packet) → length (without n ps) ≤ length ps
unfolding without
length-without n [] = omega arith
length-without n ((m, c) ∷ ps) = ground (arith, length-without n ps)

pub find-Posted :
    (n : ℕ) (sent ps : List Packet) (c : List ℕ)
    → All (Posted sent) ps
    → find n ps ≡ some c
    → Posted sent (n, c)
unfolding find
find-Posted n sent [] c h e = cc
find-Posted n sent ((m, d) ∷ ps) c ((k, g), h) e = elim (Bool-cases (m == n)) [
  | inl same ↦ (k, ground (arith, g))
  | inr other ↦ find-Posted n sent ps c h (ground arith)
]

-- The posts under way and those that succeeded were sent, and the posts under way have slots.
pub record Posts (slots : ℕ) (w : Worker) : Type 0 where
  pub flying : All (Posted w.sent) w.in_flight
  pub came : All (Posted w.sent) w.arrived
  pub capacity : w.slots ≡ slots
  pub within : length w.in_flight ≤ slots

fail_session-Posts :
    (slots : ℕ) (e : Error) (w : Worker) → Posts slots w → Posts slots (fail_session e w)
unfolding fail_session
fail_session-Posts slots e w v =
    if_elim (Posts slots) w.canceled w (failing e w) (λ on. v)
      (λ off. record { flying = v.flying; came = v.came; capacity = v.capacity; within = v.within })

after_drain-Posts :
    (slots : ℕ) (w : Worker) (b : Batch) (o : Round Drained)
    → Posts slots w
    → Posts slots (after_drain w b o)
unfolding after_drain
after_drain-Posts slots w b (returns (bytes c)) v = record {
  flying = v.flying;
  came = v.came;
  capacity = v.capacity;
  within = v.within;
}
after_drain-Posts slots w b (returns (ends e)) v = record {
  flying = v.flying;
  came = v.came;
  capacity = v.capacity;
  within = v.within;
}
after_drain-Posts slots w b again v = record {
  flying = v.flying;
  came = v.came;
  capacity = v.capacity;
  within = v.within;
}
after_drain-Posts slots w b (waits n) v = record {
  flying = v.flying;
  came = v.came;
  capacity = v.capacity;
  within = v.within;
}

post_packet-Posts :
    (slots : ℕ) (w : Worker) (p : Packet) (result : Option Error)
    → Posts slots w
    → length w.in_flight < w.slots
    → Posts slots (post_packet w p result)
unfolding post_packet
post_packet-Posts slots w p none v free = record {
  flying =
      All_Posted-last (w.sent ++ (p ∷ [])) w.in_flight p
        (All_Posted-append w.sent (p ∷ []) w.in_flight v.flying)
        (length w.sent, get_elem?-last w.sent p);
  came = All_Posted-append w.sent (p ∷ []) w.arrived v.came;
  capacity = v.capacity;
  within = omega (arith, length-append w.in_flight (p ∷ []), v.capacity, free);
}
post_packet-Posts slots w p (some e) v free =
    fail_session-Posts slots e (record w { phase = stopped })
      (record { flying = v.flying; came = v.came; capacity = v.capacity; within = v.within })

go_on-Posts :
    (slots : ℕ) (result : Option Error) (w : Worker) (ph : Phase)
    → Posts slots w
    → Posts slots (go_on result w ph)
unfolding go_on
go_on-Posts slots result w checking v = record {
  flying = v.flying;
  came = v.came;
  capacity = v.capacity;
  within = v.within;
}
go_on-Posts slots result w draining v =
    after_drain-Posts slots w (drain_round w.batch).batch (drain_round w.batch).outcome v
go_on-Posts slots result w (pausing c) v = record {
  flying = v.flying;
  came = v.came;
  capacity = v.capacity;
  within = v.within;
}
go_on-Posts slots result w (waiting_slot p) v =
    if_elim (Posts slots) (ltb (length w.in_flight) w.slots) (post_packet w p result) w
      (λ free. post_packet-Posts slots w p result v (ground arith)) (λ full. v)
go_on-Posts slots result w stopped v = v

stop_if :
    (slots : ℕ) (w : Worker)
    → Posts slots w
    → Posts slots (if w.canceled then record w { phase = stopped } else w)
stop_if slots w v =
    if_elim (Posts slots) w.canceled (record w { phase = stopped }) w
      (λ on. record { flying = v.flying; came = v.came; capacity = v.capacity; within = v.within })
      (λ off. v)

give_up-Posts : (slots : ℕ) (w : Worker) (ph : Phase) → Posts slots w → Posts slots (give_up w ph)
unfolding give_up
give_up-Posts slots w checking v = v
give_up-Posts slots w draining v = v
give_up-Posts slots w stopped v = v
give_up-Posts slots w (pausing c) v = stop_if slots w v
give_up-Posts slots w (waiting_slot p) v = stop_if slots w v

post_ends-Posts :
    (slots n : ℕ) (result : Option Error) (w : Worker) (found : Option (List ℕ))
    → find n w.in_flight ≡ found
    → Posts slots w
    → Posts slots (post_ends n result w found)
unfolding post_ends
post_ends-Posts slots n result w none e v = v
post_ends-Posts slots n none w (some c) e v = record {
  flying = All_Posted-without n w.sent w.in_flight v.flying;
  came =
      All_Posted-last w.sent w.arrived (n, c) v.came
        (find-Posted n w.sent w.in_flight c v.flying e);
  capacity = v.capacity;
  within = omega (arith, length-without n w.in_flight, v.within);
}
post_ends-Posts slots n (some x) w (some c) e v =
    fail_session-Posts slots x (record w { in_flight = without n w.in_flight })
      (record {
        flying = All_Posted-without n w.sent w.in_flight v.flying;
        came = v.came;
        capacity = v.capacity;
        within = omega (arith, length-without n w.in_flight, v.within);
      })

step-Posts : (slots : ℕ) (w : Worker) (e : Event) → Posts slots w → Posts slots (step w e)
unfolding step write_some
step-Posts slots w (writes ctx p total) v = record {
  flying = v.flying;
  came = v.came;
  capacity = v.capacity;
  within = v.within;
}
step-Posts slots w (closes e) v = record {
  flying = v.flying;
  came = v.came;
  capacity = v.capacity;
  within = v.within;
}
step-Posts slots w cancels v = record {
  flying = v.flying;
  came = v.came;
  capacity = v.capacity;
  within = v.within;
}
step-Posts slots w gives_up v = give_up-Posts slots w w.phase v
step-Posts slots w (goes_on result) v = go_on-Posts slots result w w.phase v
step-Posts slots w (ends_post n result) v =
    post_ends-Posts slots n result w (find n w.in_flight) refl v

run-Posts : (slots : ℕ) (w : Worker) (es : List Event) → Posts slots w → Posts slots (run w es)
unfolding run
run-Posts slots w [] v = v
run-Posts slots w (e ∷ es) v = run-Posts slots (step w e) es (step-Posts slots w e v)

pub run-start-Posts :
    (each posts : ℕ) (es : List Event)
    → Posts (slot_limit posts) (run (start_packet_up each posts) es)
unfolding start_packet_up
run-start-Posts each posts es =
    run-Posts (slot_limit posts) (start_packet_up each posts) es
      (record { flying = tt; came = tt; capacity = refl; within = omega arith })
