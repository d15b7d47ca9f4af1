-- ===== src/Dns/Serving/Stream.antt =====
-- Each query on a stream is answered, in order, however its bytes arrive.
use cronet_go.Base.{
  ℕ, zero, suc, ◌^◌, ◌<◌, ◌≡◌, refl, sym, ap, ◌∙◌, List, [], ◌∷◌, ◌++◌, Option, none, some, arith,
  length, take, drop, All, Error, eof, Got, Source, Sink, wire, Faultless, read_full, write, Fills,
  read_full-Fills, read_full_end, put_uint16, uint16, uint16-put_uint16, append_assoc, append-nil,
  length-append, take-append_le, take_all, drop-append_self,
}
use cronet_go.Dns.Messages.{Resolver, Library}
use cronet_go.Dns.Serving.{
  Packing, Served, ends_with, answer_query, then_write, send_answer, after_query, length_of,
  query_of, after_length, serve_stream,
}

abbrev pub IsQuery : List ℕ → Type 0
IsQuery q = (0 < length q) × (length q < 2 ^ 16)

-- Messages with their lengths before them.
abbrev pub framed : List (List ℕ) → List ℕ
framed [] = []
framed (q ∷ qs) = put_uint16 (length q) ++ (q ++ framed qs)

abbrev pub IsShort : List ℕ → Type 0
IsShort a = length a < 2 ^ 16

-- A client's reader of that many answers: two bytes of a length, then so many bytes.
unfoldable pub received : ℕ → List ℕ → List (List ℕ)
received zero w = []
received (suc n) (hi ∷ lo ∷ rest) = take (uint16 hi lo) rest ∷ received n (drop (uint16 hi lo) rest)
received (suc n) short = []

received-framed :
    (sent : List (List ℕ)) → All IsShort sent → received (length sent) (framed sent) ≡ sent
unfolding received
received-framed [] h = refl
received-framed (a ∷ sent) (short, h) =
    let n = length a in
    let size = uint16-put_uint16 n short in
    let first : take n (a ++ framed sent) ≡ a =
      take-append_le n a (framed sent) (omega arith) ∙ take_all n a (omega arith) in
    let rest : drop n (a ++ framed sent) ≡ framed sent = drop-append_self a (framed sent) in
    rw size (rw first (rw rest (ap (λ (r : List (List ℕ)). a ∷ r) (received-framed sent h))))

abbrev pub appended : List ℕ → Sink
appended t = record { taken = t; outcomes = [] }

module _ (packing : Packing) (lib : Library) (resolver : Resolver) where
  -- The answers to those queries that have one, in order.
  joined : Option (List ℕ) → List (List ℕ) → List (List ℕ)
  joined none rest = rest
  joined (some a) rest = a ∷ rest

  unfoldable pub answers : List (List ℕ) → List (List ℕ)
  unfolding joined
  answers [] = []
  answers (q ∷ qs) = joined (answer_query packing lib resolver q) (answers qs)

  send_answer-appended :
      (loop : Sink → Served) (t a : List ℕ)
      → send_answer packing lib resolver loop (appended t) (some a)
        ≡ loop (appended (t ++ (put_uint16 (length a) ++ a)))
  unfolding send_answer then_write write
  send_answer-appended loop t a =
      ap (λ (x : List ℕ). loop (appended x)) (append_assoc t (put_uint16 (length a)) a)

  loop_of : ℕ → Source → Sink → Served
  loop_of f s k = serve_stream packing lib resolver f s k

  serve_end :
      (f : ℕ) (s : Source) (k : Sink) (e : Error)
      → (read_full s 2 []).error ≡ some e
      → serve_stream packing lib resolver (suc f) s k ≡ ends_with (some e) k
  unfolding serve_stream after_length
  serve_end f s k e h =
      ap
        (after_length packing lib resolver (λ t j. serve_stream packing lib resolver f t j) k
          (read_full s 2 []))
        h

  -- A round on a stream that goes on with a query.
  record NextServed (f : ℕ) (s : Source) (k : Sink) (q rest : List ℕ) : Type 0 where
    left : Source
    clean : Faultless left
    remains : wire left ≡ rest
    serves :
        serve_stream packing lib resolver (suc f) s k
        ≡ send_answer packing lib resolver
            (λ j. serve_stream packing lib resolver f left j)
            k
            (answer_query packing lib resolver q)

  serve_next :
      (f : ℕ) (s : Source) (k : Sink) (x : ℕ) (xs rest : List ℕ)
      → Faultless s
      → wire s ≡ put_uint16 (length (x ∷ xs)) ++ ((x ∷ xs) ++ rest)
      → length (x ∷ xs) < 2 ^ 16
      → NextServed f s k (x ∷ xs) rest
  unfolding serve_stream after_length query_of after_query
  serve_next f s k x xs rest clean e short = record {
    left = h.source;
    clean = query.clean;
    remains = query.remains ∙ ap (drop n) front.1 ∙ drop-append_self (x ∷ xs) rest;
    serves =
        ap (after_length packing lib resolver loop k g) header.succeeds
        ∙ ap (query_of packing lib resolver loop k g.source)
            (ap (length_of packing lib resolver) front.0 ∙ uint16-put_uint16 n short)
        ∙ ap (after_query packing lib resolver loop k h) query.succeeds
        ∙ ap
            (λ (b : List ℕ).
              send_answer packing lib resolver (λ j. loop h.source j) k
                (answer_query packing lib resolver b))
            whole;
  }
    where
      n : ℕ
      n = length (x ∷ xs)

      loop : Source → Sink → Served
      loop t j = serve_stream packing lib resolver f t j

      g : Got
      g = read_full s 2 []

      header : Fills s 2 [] g
      header = read_full-Fills s 2 [] clean (rw e (omega arith))

      front : (g.bytes ≡ put_uint16 n) × (wire g.source ≡ (x ∷ xs) ++ rest)
      front = (header.filled ∙ ap (take 2) e, header.remains ∙ ap (drop 2) e)

      h : Got
      h = read_full g.source n []

      query : Fills g.source n [] h
      query =
          read_full-Fills g.source n [] header.clean
            (rw front.1 (omega (arith, length-append (x ∷ xs) rest)))

      whole : h.bytes ≡ x ∷ xs
      whole =
          query.filled
          ∙ ap (take n) front.1
          ∙ take-append_le n (x ∷ xs) rest (omega arith)
          ∙ take_all n (x ∷ xs) (omega arith)

  answered :
      (o : Option (List ℕ)) (qs : List (List ℕ)) (f : ℕ) (s : Source) (t : List ℕ)
      → ((v : List ℕ)
          → serve_stream packing lib resolver f s (appended v)
            ≡ ends_with (some eof) (appended (v ++ framed (answers qs))))
      → send_answer packing lib resolver
          (λ j. serve_stream packing lib resolver f s j)
          (appended t)
          o
        ≡ ends_with (some eof) (appended (t ++ framed (joined o (answers qs))))
  unfolding joined send_answer
  answered none qs f s t later = later t
  answered (some a) qs f s t later =
      send_answer-appended (λ j. serve_stream packing lib resolver f s j) t a
      ∙ later (t ++ (put_uint16 (length a) ++ a))
      ∙ ap (λ (x : List ℕ). ends_with (some eof) (appended x))
          (append_assoc t (put_uint16 (length a) ++ a) (framed (answers qs)))

  serve_stream-answers :
      (queries : List (List ℕ)) (f : ℕ) (s : Source) (t : List ℕ)
      → Faultless s
      → All IsQuery queries
      → wire s ≡ framed queries
      → length queries < f
      → serve_stream packing lib resolver f s (appended t)
        ≡ ends_with (some eof) (appended (t ++ framed (answers queries)))
  unfolding answers
  serve_stream-answers queries zero s t clean shaped e fuel = absurd (omega arith)
  serve_stream-answers [] (suc f) s t clean shaped e fuel =
      serve_end f s (appended t) eof (read_full_end s 1 clean e).0
      ∙ ap (λ (x : List ℕ). ends_with (some eof) (appended x)) (sym (append-nil t))
  serve_stream-answers ([] ∷ qs) (suc f) s t clean ((filled, short), shaped) e fuel =
      absurd (omega arith)
  serve_stream-answers ((x ∷ xs) ∷ qs) (suc f) s t clean ((filled, short), shaped) e fuel =
      let r = serve_next f s (appended t) x xs (framed qs) clean e short in
      r.serves
      ∙ answered (answer_query packing lib resolver (x ∷ xs)) qs f r.left t (λ (v : List ℕ).
        serve_stream-answers qs f r.left v r.clean shaped r.remains (omega arith))

  -- A session on a stream of whole queries that arrive without a fault and in any pieces, with writes that
  -- succeed: it ends by the end of the stream, and what was written behind what was there are the answers
  -- to the queries that have one, in order, each behind the low 16 bits of its length. When no answer has
  -- 65536 bytes or more, a client that takes the stream apart by these lengths has the answers.
  pub serve_stream-serves :
      (queries : List (List ℕ)) (f : ℕ) (s : Source) (t : List ℕ)
      → Faultless s
      → All IsQuery queries
      → wire s ≡ framed queries
      → length queries < f
      → (serve_stream packing lib resolver f s (appended t)
          ≡ ends_with (some eof) (appended (t ++ framed (answers queries))))
        × (All IsShort (answers queries)
            → received (length (answers queries)) (framed (answers queries)) ≡ answers queries)
  serve_stream-serves queries f s t clean shaped e fuel =
      (serve_stream-answers queries f s t clean shaped e fuel, received-framed (answers queries))
