-- ===== src/Session/Clients/Parts.antt =====
-- What holds of a session of an XHTTP client while the parts of its Close run.
use cronet_go.Base.{
  ℕ, zero, suc, ◌≡◌, refl, List, [], ◌∷◌, ◌++◌, Option, none, some, Bool, true, false, ◌||◌, arith,
  All, Error,
}
use cronet_go.Session.Clients.{
  Part, sets_error, cancels, cancels_upload, cancels_deadlines, closes_writer, closes_post,
  closes_reader, awaits_upload, removes, XSession, new_session, set_error, perform, close_next,
  is_done, await_session, snapshot, any_awaited, at_session, uses,
}

-- Parts that are still to come: the close of the reader, the wait for the upload, the first error, and `removes` in its place.
unfoldable pub reader_left : List Part → Bool
reader_left [] = false
reader_left (closes_reader ∷ rest) = true
reader_left (p ∷ rest) = reader_left rest

unfoldable pub upload_left : List Part → Bool
upload_left [] = false
upload_left (awaits_upload ∷ rest) = true
upload_left (p ∷ rest) = upload_left rest

unfoldable pub error_left : List Part → Bool
error_left [] = false
error_left (sets_error ∷ rest) = true
error_left (p ∷ rest) = error_left rest

unfoldable pub removes_last : List Part → Bool
removes_last [] = true
removes_last (removes ∷ []) = true
removes_last (removes ∷ p ∷ rest) = false
removes_last (p ∷ rest) = removes_last rest

unfoldable pub has_error : Option Error → Bool
has_error none = false
has_error (some e) = true

abbrev pub left_or_begun : (List Part → Bool) → Option (List Part) → Bool
left_or_begun f none = true
left_or_begun f (some rest) = f rest

-- What holds of each session, of a client whose Close has begun or not.
pub record Fine (closed : Bool) (s : XSession) : Type 0 where
  pub native : s.native ≡ true → left_or_begun reader_left s.left ≡ true
  pub uploading : s.upload_ended ≡ false → left_or_begun upload_left s.left ≡ true
  pub unregistered : s.registered ≡ false → is_done s.left ≡ true
  pub ordered : left_or_begun removes_last s.left ≡ true
  pub error : (left_or_begun error_left s.left || has_error s.err) ≡ true
  pub waited : closed ≡ true → (s.awaited || is_done s.left) ≡ true

pub set_error-Fine : (b : Bool) (e : Error) (s : XSession) → Fine b s → Fine b (set_error e s)
unfolding has_error
set_error-Fine b e s f = record {
  native = f.native;
  uploading = f.uploading;
  unregistered = f.unregistered;
  ordered = f.ordered;
  error = ground (arith, f.error);
  waited = f.waited;
}

perform-Fine :
    (b : Bool) (p : Part) (rest : List Part) (s : XSession)
    → s.left ≡ some (p ∷ rest)
    → Fine b s
    → Fine b (perform p rest s)
unfolding perform reader_left upload_left error_left removes_last has_error
perform-Fine b sets_error rest s e f = ground arith
perform-Fine b cancels rest s e f = ground arith
perform-Fine b cancels_upload rest s e f = ground arith
perform-Fine b cancels_deadlines rest s e f = ground arith
perform-Fine b closes_writer rest s e f = ground arith
perform-Fine b closes_post rest s e f = ground arith
perform-Fine b closes_reader rest s e f = ground arith
perform-Fine b awaits_upload rest s e f = ground arith
perform-Fine b removes [] s e f = ground arith
perform-Fine b removes (q ∷ rest) s e f = ground arith

pub close_next-Fine :
    (b : Bool) (s : XSession) (l : Option (List Part))
    → s.left ≡ l
    → Fine b s
    → Fine b (close_next l s)
unfolding close_next reader_left upload_left error_left removes_last has_error
close_next-Fine b s none e f = ground arith
close_next-Fine b s (some []) e f = f
close_next-Fine b s (some (p ∷ rest)) e f = perform-Fine b p rest s e f

pub await_session-Fine : (b : Bool) (s : XSession) → Fine b s → Fine b (await_session s)
unfolding await_session
await_session-Fine b s f = ground arith

pub upload_ended-Fine :
    (b : Bool) (s : XSession) → Fine b s → Fine b (record s { upload_ended = true })
upload_ended-Fine b s f = record {
  native = f.native;
  uploading = λ on. cc on;
  unregistered = f.unregistered;
  ordered = f.ordered;
  error = f.error;
  waited = f.waited;
}

pub new_session-Fine : (packet_up : Bool) → Fine false (new_session packet_up)
unfolding reader_left upload_left error_left removes_last has_error
new_session-Fine packet_up = ground arith

abbrev pub Done : XSession → Type 0
Done s = is_done s.left ≡ true

pub close_next-Done :
    (s : XSession) (l : Option (List Part)) → s.left ≡ l → Done s → Done (close_next l s)
unfolding close_next
close_next-Done s none e d = cc
close_next-Done s (some []) e d = d
close_next-Done s (some (p ∷ rest)) e d = absurd (ground arith)

pub await_session-Done : (s : XSession) → Done s → Done (await_session s)
unfolding await_session
await_session-Done s d = ground arith

-- What holds of all sessions, when one of them changes.
pub All-at_session :
    (P : XSession → Type 0) (n : ℕ) (f : XSession → XSession) (ss : List XSession)
    → ((s : XSession) → P s → P (f s))
    → All P ss
    → All P (at_session n f ss)
unfolding at_session
All-at_session P n f [] g h = tt
All-at_session P zero f (s ∷ ss) g (p, h) = (g s p, h)
All-at_session P (suc n) f (s ∷ ss) g (p, h) = (p, All-at_session P n f ss g h)

pub All-append_one :
    (P : XSession → Type 0) (ss : List XSession) (s : XSession)
    → All P ss
    → P s
    → All P (ss ++ (s ∷ []))
All-append_one P [] s h p = (p, tt)
All-append_one P (t ∷ ts) s (q, h) p = (q, All-append_one P ts s h p)

-- After the snapshot each session is awaited, or its Close is over.
pub snapshot-Fine : (ss : List XSession) → All (Fine false) ss → All (Fine true) (snapshot ss)
snapshot-Fine [] h = tt
snapshot-Fine (s ∷ ss) (f, h) = (
  record {
    native = f.native;
    uploading = f.uploading;
    unregistered = f.unregistered;
    ordered = f.ordered;
    error = f.error;
    waited = λ on. ground (arith, f.unregistered);
  },
  snapshot-Fine ss h,
)

pub none_awaited-Done :
    (ss : List XSession) → All (Fine true) ss → any_awaited ss ≡ false → All Done ss
none_awaited-Done [] h e = tt
none_awaited-Done (s ∷ ss) (f, h) e =
    (ground (arith, f.waited refl), none_awaited-Done ss h (ground arith))

pub uses-Done :
    (n : ℕ) (b : Bool) (ss : List XSession) → All (Fine b) ss → All Done ss → uses n ss ≡ 0
unfolding uses reader_left upload_left
uses-Done n b [] h d = refl
uses-Done zero b (s ∷ ss) (f, h) (d, g) = ground (arith, f.native, f.uploading, d)
uses-Done (suc n) b (s ∷ ss) (f, h) (d, g) = uses-Done n b ss h g
