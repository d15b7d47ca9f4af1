-- ===== src/Packets/Reassembly.antt =====
-- A server that puts packets in the order of their numbers has the bytes that the session accepted.
use cronet_go.Base.{
  ℕ, zero, suc, ◌+◌, ◌%◌, ◌^◌, ◌≤◌, ◌<◌, ◌≡◌, ◌≢◌, refl, sym, ap, ◌∙◌, subst, ◌⊎◌, List, [], ◌∷◌,
  ◌++◌, none, some, false, arith, length, drop, All, append-nil, append_assoc, inl, inr,
  Option-cases, get_elem?, drop_all,
}
use cronet_go.Packets.{
  Packet, Phase, checking, draining, stopped, pausing, waiting_slot, Worker, Event, run, find,
  start_packet_up, slot_limit,
}
use cronet_go.Packets.Numbering.{payloads, Numbered, IsHeld, InOrder, run-start-InOrder}
use cronet_go.Packets.Posts.{Posted, Posts, run-start-Posts, find-Posted}
use cronet_go.Packets.Accounts.{has, has-find, Live, Accounted, run-start-Accounted}

-- What the server hands on: the payloads from number `i` on, up to the first that has not come.
unfoldable pub reassemble : ℕ → ℕ → List Packet → List ℕ
reassemble zero i came = []
reassemble (suc f) i came = elim (find i came) [
  | none ↦ []
  | some c ↦ c ++ reassemble f (i + 1) came
]

reassemble-some :
    (f i : ℕ) (came : List Packet) (c : List ℕ)
    → find i came ≡ some c
    → reassemble (suc f) i came ≡ c ++ reassemble f (i + 1) came
unfolding reassemble
reassemble-some f i came c e = rw (e, reassemble) refl

reassemble-none :
    (f i : ℕ) (came : List Packet) → find i came ≡ none → reassemble (suc f) i came ≡ []
unfolding reassemble
reassemble-none f i came e = rw (e, reassemble) refl

number_at :
    (j k : ℕ) (ps : List Packet) (n : ℕ) (c : List ℕ)
    → Numbered j ps
    → get_elem? ps k ≡ some (n, c)
    → (n ≡ (j + k) % 2 ^ 64) × (k < length ps)
number_at j k [] n c h e = cc
number_at j zero ((m, d) ∷ ps) n c (g, h) e = (ground arith, omega arith)
number_at j (suc k) ((m, d) ∷ ps) n c (g, h) e =
    let r = number_at (suc j) k ps n c h e in
    (r.0 ∙ ap (λ (t : ℕ). t % 2 ^ 64) (omega arith), omega (arith, r.1))

payloads-drop :
    (k : ℕ) (ps : List Packet) (n : ℕ) (c : List ℕ)
    → get_elem? ps k ≡ some (n, c)
    → payloads (drop k ps) ≡ c ++ payloads (drop (suc k) ps)
payloads-drop k [] n c e = cc
payloads-drop zero ((m, d) ∷ ps) n c e = ground arith
payloads-drop (suc k) ((m, d) ∷ ps) n c e = payloads-drop k ps n c e

-- The packet with a number, among those that came.
came-at :
    (sent came : List Packet) (i : ℕ) (c : List ℕ)
    → Numbered 0 sent
    → All (Posted sent) came
    → length sent ≤ 2 ^ 64
    → find i came ≡ some c
    → payloads (drop i sent) ≡ c ++ payloads (drop (i + 1) sent)
came-at sent came i c h p short e =
    let (k, g) = find-Posted i sent came c p e in
    let r = number_at 0 k sent i c h g in
    let same : k ≡ i = omega (arith, r) in
    let next : suc k ≡ i + 1 = omega (arith, r) in
    ap (λ (t : ℕ). payloads (drop t sent)) (sym same)
    ∙ payloads-drop k sent i c g
    ∙ ap (λ (t : ℕ). c ++ payloads (drop t sent)) next

reassemble_front :
    (sent came : List Packet) (f i : ℕ)
    → Numbered 0 sent
    → All (Posted sent) came
    → length sent ≤ 2 ^ 64
    → (rest : List ℕ) × (payloads (drop i sent) ≡ reassemble f i came ++ rest)
unfolding reassemble
reassemble_front sent came zero i h p short = (payloads (drop i sent), refl)
reassemble_front sent came (suc f) i h p short = elim (Option-cases (find i came)) [
  | inl e ↦ (payloads (drop i sent), rw (reassemble-none f i came e) refl)
  | inr (c, e) ↦
      let r = reassemble_front sent came f (i + 1) h p short in
      (
        r.0,
        came-at sent came i c h p short e
            ∙ ap (◌++◌ c) r.1
            ∙ sym (append_assoc c (reassemble f (i + 1) came) r.0)
            ∙ ap (λ (t : List ℕ). t ++ r.0) (sym (reassemble-some f i came c e)),
      )
]

found_at :
    (came : List Packet) (j k : ℕ) (ps : List Packet)
    → Numbered j ps
    → All (λ (p : Packet). find p.0 came ≢ none) ps
    → k < length ps
    → j + length ps ≤ 2 ^ 64
    → find (j + k) came ≢ none
found_at came j k [] h f lt le = absurd (omega arith)
found_at came j zero ((n, c) ∷ ps) (e, h) (f, g) lt le =
    subst (λ (t : ℕ). find t came ≢ none) (rw e (omega arith)) f
found_at came j (suc k) ((n, c) ∷ ps) (e, h) (f, g) lt le =
    subst (λ (t : ℕ). find t came ≢ none) (omega arith)
      (found_at came (suc j) k ps h g (omega arith) (omega arith))

reassemble_whole :
    (sent came : List Packet) (f i : ℕ)
    → Numbered 0 sent
    → All (Posted sent) came
    → All (λ (p : Packet). find p.0 came ≢ none) sent
    → length sent ≤ 2 ^ 64
    → i + f ≡ length sent
    → reassemble f i came ≡ payloads (drop i sent)
unfolding reassemble
reassemble_whole sent came zero i h p g short e = sym (ap payloads (drop_all i sent (omega arith)))
reassemble_whole sent came (suc f) i h p g short e = elim (Option-cases (find i came)) [
  | inl none_at ↦ absurd (
      found_at came 0 i sent h g (omega arith) (omega arith)
        (ap (λ (t : ℕ). find t came) (omega arith) ∙ none_at))
  | inr (c, at) ↦
      reassemble-some f i came c at
      ∙ ap (◌++◌ c) (reassemble_whole sent came f (i + 1) h p g short (omega arith))
      ∙ sym (came-at sent came i c h p short at)
]

-- Nothing is under way: what was sent has arrived.
All_found :
    (ps came : List Packet) → All (Live [] came) ps → All (λ (p : Packet). find p.0 came ≢ none) ps
unfolding has
All_found [] came h = tt
All_found (p ∷ ps) came (e, h) = (has-find p.0 came e, All_found ps came h)

-- The worker is between two packets.
abbrev pub Between : Phase → Type 0
Between ph = (ph ≡ checking) ⊎ (ph ≡ draining)

Between-rest : (w : Worker) (ph : Phase) (rest : List ℕ) → IsHeld w ph rest → Between ph → rest ≡ []
unfolding IsHeld
Between-rest w checking rest h b = h.0
Between-rest w draining rest h b = h.0
Between-rest w (pausing c) rest h b = absurd (ground arith)
Between-rest w (waiting_slot p) rest h b = absurd (ground arith)
Between-rest w stopped rest h b = absurd (ground arith)

-- What the upload promises of the bytes that it accepted.
pub record Delivers (limit : ℕ) (w : Worker) : Type 0 where
  -- no more posts at a time than there are slots
  pub within : length w.in_flight ≤ limit
  -- at any time the server has a front of the accepted bytes
  pub front : (f : ℕ) → (rest : List ℕ) × (w.accepted ≡ reassemble f 0 w.arrived ++ rest)
  -- and all of them once the worker, never cancelled, has nothing left to send or to wait for
  pub whole :
      w.canceled ≡ false
      → Between w.phase
      → w.in_flight ≡ []
      → w.batch.buffered ≡ []
      → reassemble (length w.sent) 0 w.arrived ≡ w.accepted

-- However writes, the end of posts, failures and cancels interleave, as long as no more than 2^64 packets
-- were sent: the packets that have arrived, in the order of their numbers up to the first that is
-- missing, are a front of the bytes that were accepted, posts are within their slots, and when nothing
-- was cancelled, buffered, held or under way the server has every accepted byte.
pub run-Delivers :
    (each posts : ℕ) (es : List Event)
    → length (run (start_packet_up each posts) es).sent ≤ 2 ^ 64
    → Delivers (slot_limit posts) (run (start_packet_up each posts) es)
run-Delivers each posts es short = record {
  within = p.within;
  front = λ f.
      let r = reassemble_front w.sent w.arrived f 0 o.numbered p.came short in
      (
        r.0 ++ (o.rest ++ w.batch.buffered),
        o.conserved
            ∙ ap (λ (t : List ℕ). t ++ (o.rest ++ w.batch.buffered)) r.1
            ∙ append_assoc (reassemble f 0 w.arrived) r.0 (o.rest ++ w.batch.buffered),
      );
  whole = λ off between idle empty.
      reassemble_whole w.sent w.arrived (length w.sent) 0 o.numbered p.came
        (All_found w.sent w.arrived
          (subst (λ (t : List Packet). All (Live t w.arrived) w.sent) idle (a.live off)))
        short (omega arith)
      ∙ sym (append-nil (payloads w.sent))
      ∙ ap (◌++◌ (payloads w.sent))
          (sym (rw (Between-rest w w.phase o.rest o.held between, empty) refl))
      ∙ sym o.conserved;
}
  where
    w : Worker
    w = run (start_packet_up each posts) es

    o : InOrder w
    o = run-start-InOrder each posts es

    p : Posts (slot_limit posts) w
    p = run-start-Posts each posts es

    a : Accounted w
    a = run-start-Accounted each posts es
