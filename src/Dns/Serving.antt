-- ===== src/Dns/Serving.antt =====
-- naive_dns.go, serveDNSStreamConn and serveDNSPacketConn: queries and answers on a stream, each with its length before it. The
-- socket is a source and a sink; its deadlines and its close by a context are faults of the source.
pub mod Stream
use cronet_go.Base.{
  ℕ, zero, suc, ◌≡◌, ◌<◌, ◌^◌, List, [], ◌∷◌, ◌++◌, Option, none, some, Bool, true, false,
  if◌then◌else◌, ltb, length, Error, Got, Source, Sink, read_full, write, put_uint16, uint16,
}
use cronet_go.Dns.Messages.{Msg, Resolver, Library, normalize_dns_response, truncated_dns_response}

-- Msg.Unpack and Msg.Pack, with `none` for an error. Nothing is relied on for the size of a packed message:
-- the length that the code writes before it is `uint16(len(packed))`.
pub record Packing : Type 0 where
  pub unpack : List ℕ → Option Msg
  pub pack : Msg → Option (List ℕ)

-- How the loop ended, or that its fuel did.
pub record Served : Type 0 where
  pub finished : Bool
  pub error : Option Error
  pub sink : Sink

abbrev pub ends_with : Option Error → Sink → Served
ends_with e k = record { finished = true; error = e; sink = k }

module _ (packing : Packing) (lib : Library) (resolver : Resolver) where
  answer_message : Option Msg → Option (List ℕ)
  answer_message none = none
  answer_message (some request) =
      packing.pack (normalize_dns_response lib request (resolver request))

  -- The bytes of the answer to a query, or `none` where one of the two does not pack or unpack.
  unfoldable pub answer_query : List ℕ → Option (List ℕ)
  unfolding answer_message
  answer_query query = answer_message (packing.unpack query)

  -- The writes of a length and of a message, and the loop behind them.
  then_write : (Sink → Served) → Option Error × Sink → Served
  then_write loop (some e, k) = ends_with (some e) k
  then_write loop (none, k) = loop k

  send_answer : (Sink → Served) → Sink → Option (List ℕ) → Served
  unfolding then_write
  send_answer loop k none = loop k
  send_answer loop k (some packed) =
      then_write (λ j. then_write loop (write packed j)) (write (put_uint16 (length packed)) k)

  after_query : (Source → Sink → Served) → Sink → Got → Option Error → Served
  unfolding send_answer
  after_query loop k g (some e) = ends_with (some e) k
  after_query loop k g none = send_answer (loop g.source) k (answer_query g.bytes)

  abbrev pub length_of : List ℕ → ℕ
  length_of (hi ∷ lo ∷ rest) = uint16 hi lo
  length_of short = 0

  query_of : (Source → Sink → Served) → Sink → Source → ℕ → Served
  unfolding after_query
  query_of loop k s zero = ends_with none k
  query_of loop k s (suc n) = let g = read_full s (suc n) [] in after_query loop k g g.error

  after_length : (Source → Sink → Served) → Sink → Got → Option Error → Served
  unfolding query_of
  after_length loop k g (some e) = ends_with (some e) k
  after_length loop k g none = query_of loop k g.source (length_of g.bytes)

  -- The loop, with fuel for its rounds.
  unfoldable pub serve_stream : ℕ → Source → Sink → Served
  unfolding after_length
  serve_stream zero s k = record { finished = false; error = none; sink = k }
  serve_stream (suc f) s k =
      let g = read_full s 2 [] in after_length (λ t j. serve_stream f t j) k g g.error

  -- One datagram of serveDNSPacketConn: an answer that is too long for 512 bytes is replaced by a
  -- truncated one.
  fit_answer : Msg → ℕ → Option (List ℕ) → Option (List ℕ)
  fit_answer request rcode none = none
  fit_answer request rcode (some packed) =
      if ltb 512 (length packed)
      then packing.pack (truncated_dns_response lib request rcode)
      else some packed

  answer_packet : Option Msg → Option (List ℕ)
  unfolding fit_answer
  answer_packet none = none
  answer_packet (some request) =
      let response = normalize_dns_response lib request (resolver request) in
      fit_answer request response.rcode (packing.pack response)

  unfoldable pub serve_packet : List ℕ → Option (List ℕ)
  unfolding answer_packet
  serve_packet datagram = answer_packet (packing.unpack datagram)
