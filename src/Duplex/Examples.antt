-- ===== src/Duplex/Examples.antt =====
-- A bidirectional request in concrete histories.
use cronet_go.Base.{◌≡◌, refl, List, [], ◌∷◌, none, true, false, eof, canceled}
use cronet_go.Conn.{succeeded}
use cronet_go.Duplex.{
  Headers, raw_read_round, drained, eof_locked, cancel_locked, finish_locked, start_read_locked,
  start, on_response_headers_received, on_read_completed, on_terminal, new_duplex,
}
use cronet_go.Duplex.Worker.{
  Event, starts, cancels, stream_ready, headers_received, read_completed, ends, reads,
  worker_begins, upload_read, step, run, initial,
}
use cronet_go.Duplex.Kept.{Lasts}
use cronet_go.Duplex.Buffers.{Safe, run-initial-Safe}
use cronet_go.Duplex.Delivery.{Balanced, run-initial-Balanced, fails-delivered}
use cronet_go.Duplex.Lasting.{run-Lasts}

abbrev plain : Headers
plain = record { status = "200"; content_type = ""; grpc_encoding = ""; grpc_status = "" }

abbrev history : List Event
history =
    starts true
    ∷ stream_ready
    ∷ worker_begins
    ∷ upload_read 5 none true
    ∷ headers_received true plain
    ∷ read_completed (1 ∷ 2 ∷ 3 ∷ [])
    ∷ reads 2 none true
    ∷ []

abbrev whole : List Event
whole =
    starts true
    ∷ headers_received true plain
    ∷ read_completed (1 ∷ 2 ∷ [])
    ∷ reads 2 none true
    ∷ read_completed []
    ∷ ends succeeded
    ∷ []

run-initial-Safe_example : Safe (run (initial false) history)
run-initial-Safe_example = run-initial-Safe false history

run-initial-Balanced_example : Balanced (run (initial false) history)
run-initial-Balanced_example = run-initial-Balanced false history

fails-delivered_example :
    (run (initial false) whole).supplied ≡ (run (initial false) whole).delivered
unfolding run step start on_response_headers_received start_read_locked on_read_completed
    raw_read_round drained cancel_locked finish_locked eof_locked on_terminal new_duplex
fails-delivered_example =
    fails-delivered false whole 3 true eof (run (initial false) whole).request refl

lasting_run :
    Lasts
      (run (initial false) whole).request
      (run (run (initial false) whole) (cancels canceled ∷ [])).request
lasting_run = run-Lasts (run (initial false) whole) (cancels canceled ∷ [])
