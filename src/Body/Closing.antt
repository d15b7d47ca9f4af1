-- ===== src/Body/Closing.antt =====
-- Every reader of a body is closed once.
use cronet_go.Base.{ℕ, ◌+◌, ◌≡◌, refl, List, [], ◌∷◌, Bool, true, false, if◌then◌else◌, arith}
use cronet_go.Body.{
  Rewind, idle, closing_old, fetching, dropping, Provider, new_provider, read, rewind_step, stop,
  Event, reads, rewinds, stops, step, run, is_idle,
}

-- The readers in the hands of a rewind.
abbrev pub in_hand : Rewind → ℕ
in_hand closing_old = 1
in_hand dropping = 1
in_hand p = 0

pub record Sound (p : Provider) : Type 0 where
  pub readers : p.opened ≡ p.closes + (if p.held then 1 else 0) + in_hand p.rewind
  pub taken : is_idle p.rewind ≡ false → p.held ≡ false
  pub stopped : p.closed ≡ true → p.held ≡ false

rewind_step-Sound :
    (fetched : Bool) (p : Provider) (w : Rewind)
    → p.rewind ≡ w
    → Sound p
    → Sound (rewind_step fetched w p)
unfolding rewind_step
rewind_step-Sound fetched p idle e v = ground arith
rewind_step-Sound fetched p closing_old e v = ground arith
rewind_step-Sound true p fetching e v = ground arith
rewind_step-Sound false p fetching e v = ground arith
rewind_step-Sound fetched p dropping e v = ground arith

step-Sound : (size : ℕ) (p : Provider) (e : Event) → Sound p → Sound (step size p e)
unfolding step read stop
step-Sound size p (reads got e) v = ground arith
step-Sound size p (rewinds fetched) v = rewind_step-Sound fetched p p.rewind refl v
step-Sound size p stops v = ground arith

run-Sound : (size : ℕ) (p : Provider) (es : List Event) → Sound p → Sound (run size p es)
unfolding run
run-Sound size p [] v = v
run-Sound size p (e ∷ es) v = run-Sound size (step size p e) es (step-Sound size p e v)

-- However reads, the steps of rewinds and stops interleave, each reader that was got has been closed
-- once, is the one that the provider holds, or is in the hands of a rewind that is about to close it. So
-- once the provider is stopped and no rewind is under way, every reader has been closed.
pub run-closes :
    (size length : ℕ) (can_rewind : Bool) (es : List Event)
    → let p = run size (new_provider length can_rewind) es in
      Sound p × (p.closed ≡ true → p.rewind ≡ idle → p.opened ≡ p.closes)
unfolding new_provider
run-closes size length can_rewind es =
    let v = run-Sound size (new_provider length can_rewind) es (ground arith) in
    (v, λ c i. ground (arith, v))
