-- ===== src/Packets/Examples.antt =====
-- The theorems on packet uploads at concrete runs, and tests.
use cronet_go.Base.{◌≡◌, refl, List, [], ◌∷◌, none, arith, codes, length}
use cronet_go.Batch.{new_batch, write_round, accept, accept_open, drain_round}
use cronet_go.Packets.{
  Event, writes, goes_on, ends_post, run, step, start_packet_up, slot_limit, go_on, after_drain,
  post_packet, post_ends, without, find, write_some,
}
use cronet_go.Packets.Reassembly.{reassemble, Delivers, run-Delivers}

-- Two packets of two bytes and one; the second arrives first.
abbrev out_of_order : List Event
out_of_order =
    writes none (codes "abc") 0
    ∷ goes_on none
    ∷ goes_on none
    ∷ goes_on none
    ∷ goes_on none
    ∷ writes none (codes "abc") 2
    ∷ goes_on none
    ∷ goes_on none
    ∷ goes_on none
    ∷ goes_on none
    ∷ ends_post 1 none
    ∷ ends_post 0 none
    ∷ []

put_in_order : reassemble 2 0 (run (start_packet_up 2 0) out_of_order).arrived ≡ codes "abc"
unfolding reassemble run step start_packet_up slot_limit go_on after_drain post_packet post_ends
    without find write_some new_batch write_round accept accept_open drain_round
put_in_order = refl

two_sent : length (run (start_packet_up 2 0) out_of_order).sent ≡ 2
unfolding run step start_packet_up slot_limit go_on after_drain post_packet post_ends without find
    write_some new_batch write_round accept accept_open drain_round
two_sent = refl

run-Delivers_example : Delivers (slot_limit 0) (run (start_packet_up 2 0) out_of_order)
run-Delivers_example = run-Delivers 2 0 out_of_order (omega (arith, two_sent))
