-- ===== src/Packets.antt =====
-- browser_xhttp.go, startPacketUp: the worker that drains the upload buffer, numbers the pieces and posts
-- each one in a slot, while the application writes and the posts end in any order.
pub mod Numbering
pub mod Posts
pub mod Accounts
pub mod Reassembly
mod Examples
use cronet_go.Base.{
  ℕ, ◌+◌, ◌-◌, ◌%◌, ◌^◌, List, [], ◌∷◌, ◌++◌, Option, none, some, Bool, true, false, ◌==◌, ltb,
  if◌then◌else◌, length, take, drop, Error, ℤ, pos_part, le_int, pos,
}
use cronet_go.Batch.{
  Batch, Round, returns, again, waits, Drained, bytes, ends, DrainRound, drain_round, write_round,
  close_with_error, new_batch,
}
use cronet_go.Codec.{Range, browser_range_rand}

-- A packet: its sequence number and its payload.
abbrev pub Packet : Type 0
Packet = ℕ × List ℕ

-- Where the worker is: at the top of its loop, in drain, in the pause before a post, waiting for a slot,
-- or gone.
pub data Phase : Type 0 where
  checking draining stopped : Phase
  pausing : List ℕ → Phase
  waiting_slot : Packet → Phase

-- `accepted` is what the writes of the session have accepted so far, `slots` the capacity of the
-- channel, `in_flight` the posts whose goroutines have not ended, `sent` the packets that were posted, in
-- order, and `arrived` those whose post succeeded, in that order. `canceled` tells whether ctx.Err() of
-- the upload is set, and `failed` is the first error that the session was given.
pub record Worker : Type 0 where
  pub batch : Batch
  pub accepted : List ℕ
  pub phase : Phase
  pub seq : ℕ
  pub slots : ℕ
  pub in_flight : List Packet
  pub sent : List Packet
  pub arrived : List Packet
  pub canceled : Bool
  pub failed : Option Error

unfoldable pub max_each : Range → ℕ → ℕ
max_each r raw =
    let n = browser_range_rand r raw in if le_int n (pos 0) then 1000000 else pos_part n

unfoldable pub slot_limit : ℕ → ℕ
slot_limit posts = if posts == 0 then 30 else posts

unfoldable pub start_packet_up : ℕ → ℕ → Worker
start_packet_up each posts = record {
  batch = new_batch each;
  accepted = [];
  phase = checking;
  seq = 0;
  slots = slot_limit posts;
  in_flight = [];
  sent = [];
  arrived = [];
  canceled = false;
  failed = none;
}

-- conn.setError(err), batch.closeWithError(err), and the cancels of the reader and of the session, which
-- end the upload's context. Nothing is done once that has ended.
abbrev pub failing : Error → Worker → Worker
failing e w = record w {
  batch = close_with_error (some e) w.batch;
  failed = elim w.failed [ none ↦ some e | some f ↦ some f ];
  canceled = true;
}

unfoldable pub fail_session : Error → Worker → Worker
fail_session e w = if w.canceled then w else failing e w

-- One round of drain, and what follows it.
after_drain : Worker → Batch → Round Drained → Worker
after_drain w b (returns (bytes c)) = record w { batch = b; phase = pausing c }
after_drain w b (returns (ends e)) = record w { batch = b; phase = stopped }
after_drain w b again = record w { batch = b }
after_drain w b (waits n) = record w { batch = b }

-- A post in a free slot: it starts, or startPacket fails.
post_packet : Worker → Packet → Option Error → Worker
post_packet w p none = record w {
  phase = checking;
  in_flight = w.in_flight ++ (p ∷ []);
  sent = w.sent ++ (p ∷ []);
}
post_packet w p (some e) = fail_session e (record w { phase = stopped })

-- A step of the worker, by its phase: `go` goes on and tells what startPacket returns, if it is called.
-- seq is a uint64.
unfoldable pub go_on : Option Error → Worker → Phase → Worker
unfolding after_drain post_packet fail_session
go_on result w checking = record w { phase = if w.canceled then stopped else draining }
go_on result w draining = let d = drain_round w.batch in after_drain w d.batch d.outcome
go_on result w (pausing c) = record w {
  phase = waiting_slot (w.seq, c);
  seq = (w.seq + 1) % 2 ^ 64;
}
go_on result w (waiting_slot p) =
    if ltb (length w.in_flight) w.slots then post_packet w p result else w
go_on result w stopped = w

-- The worker sees that its context has ended, in a pause or without a slot.
unfoldable pub give_up : Worker → Phase → Worker
give_up w (pausing c) = if w.canceled then record w { phase = stopped } else w
give_up w (waiting_slot p) = if w.canceled then record w { phase = stopped } else w
give_up w other = w

-- The first post of this number leaves its slot.
unfoldable pub without : ℕ → List Packet → List Packet
without n [] = []
without n ((m, c) ∷ ps) = if m == n then ps else (m, c) ∷ without n ps

unfoldable pub find : ℕ → List Packet → Option (List ℕ)
find n [] = none
find n ((m, c) ∷ ps) = if m == n then some c else find n ps

unfoldable pub post_ends : ℕ → Option Error → Worker → Option (List ℕ) → Worker
unfolding without fail_session
post_ends n result w none = w
post_ends n none w (some c) = record w {
  in_flight = without n w.in_flight;
  arrived = w.arrived ++ ((n, c) ∷ []);
}
post_ends n (some e) w (some c) = fail_session e (record w { in_flight = without n w.in_flight })

-- What happens: a round of a write of `p` with `total` bytes accepted, a close of the writer, the end of
-- the upload's context, a step of the worker, and the end of a post.
pub data Event : Type 0 where
  writes : Option Error → List ℕ → ℕ → Event
  closes : Option Error → Event
  cancels gives_up : Event
  goes_on : Option Error → Event
  ends_post : ℕ → Option Error → Event

write_some : Worker → List ℕ → ℕ → Batch → ℕ → Worker
write_some w p total b total' = record w {
  batch = b;
  accepted = w.accepted ++ take (total' - total) (drop total p);
}

unfoldable pub step : Worker → Event → Worker
unfolding write_some go_on give_up post_ends find
step w (writes ctx p total) =
    let r = write_round ctx w.batch p total in write_some w p total r.batch r.total
step w (closes e) = record w { batch = close_with_error e w.batch }
step w cancels = record w { canceled = true }
step w gives_up = give_up w w.phase
step w (goes_on result) = go_on result w w.phase
step w (ends_post n result) = post_ends n result w (find n w.in_flight)

unfoldable pub run : Worker → List Event → Worker
unfolding step
run w [] = w
run w (e ∷ es) = run (step w e) es
