-- ===== src/Body/Limits.antt =====
-- A body of a declared length gives that many bytes at most, and never the end of the stream.
use cronet_go.Base.{
  ℕ, ◌≡◌, ◌≤◌, ◌<◌, ◌≢◌, List, [], ◌∷◌, Option, none, some, Bool, arith, Error, eof,
}
use cronet_go.Body.{
  Rewind, idle, closing_old, fetching, dropping, Provider, new_provider, allowed, read_error, read,
  rewind_step, stop, Event, reads, rewinds, stops, step, run,
}

-- Within the declared length, one read stays within it and does not report the end.
read-limited :
    (size got : ℕ) (e : Option Error) (p : Provider)
    → 0 < p.length
    → p.read_len ≤ p.length
    → got ≤ allowed size p
    → ((read got e p).1.read_len ≤ p.length)
      × ((read got e p).0.0 ≤ size)
      × ((read got e p).0.1 ≢ some eof)
unfolding read allowed read_error
read-limited size got none p l w h = ground arith
read-limited size got (some eof) p l w h = ground arith
read-limited size got (some e) p l w h = ground arith

record Within (length : ℕ) (p : Provider) : Type 0 where
  declared : p.length ≡ length
  bounded : p.read_len ≤ length

rewind_step-Within :
    (length : ℕ) (fetched : Bool) (p : Provider) (w : Rewind)
    → Within length p
    → Within length (rewind_step fetched w p)
unfolding rewind_step
rewind_step-Within length fetched p idle v = ground arith
rewind_step-Within length fetched p closing_old v = ground arith
rewind_step-Within length fetched p fetching v = ground arith
rewind_step-Within length fetched p dropping v = ground arith

step-Within :
    (length size : ℕ) (p : Provider) (e : Event)
    → 0 < length
    → Within length p
    → Within length (step size p e)
unfolding step read allowed stop
step-Within length size p (reads got e) l v = ground arith
step-Within length size p (rewinds fetched) l v = rewind_step-Within length fetched p p.rewind v
step-Within length size p stops l v = ground arith

run-Within :
    (length size : ℕ) (p : Provider) (es : List Event)
    → 0 < length
    → Within length p
    → Within length (run size p es)
unfolding run
run-Within length size p [] l v = v
run-Within length size p (e ∷ es) l v =
    run-Within length size (step size p e) es l (step-Within length size p e l v)

-- After any reads, rewinds and stops on a body of a declared length, a further read that gives no more
-- than the reader is asked for stays within that length and within its slice, and it does not report
-- io.EOF: the end is no error when it comes with the last byte, and io.ErrUnexpectedEOF otherwise.
pub run-read :
    (size length got : ℕ) (can_rewind : Bool) (es : List Event) (e : Option Error)
    → 0 < length
    → let p = run size (new_provider length can_rewind) es in
      got ≤ allowed size p
      → ((read got e p).1.read_len ≤ length)
        × ((read got e p).0.0 ≤ size)
        × ((read got e p).0.1 ≢ some eof)
unfolding new_provider
run-read size length got can_rewind es e l h =
    let p = run size (new_provider length can_rewind) es in
    let v = run-Within length size (new_provider length can_rewind) es l (ground arith) in
    let (a, b, c) =
      read-limited size got e p (omega (arith, v.declared, l))
        (omega (arith, v.declared, v.bounded)) h in
    (omega (arith, a, v.declared), b, c)
