-- ===== src/Client/Engines.antt =====
-- Which engine a dial uses, and what a dial does on a client that is not running.
use cronet_go.Base.{
  ℕ, ◌≡◌, ◌<◌, refl, Option, some, Bool, true, false, arith, Error, net_closed, ◌⊎◌, inl, inr,
}
use cronet_go.Client.{closing, closed, Client, engine_count, engine_index, Wait, early, admit}

-- The index of a dial is below the number of the engines that Start made, whatever the counter, the
-- wrap-around of its 64 bits included.
pub engine_index-engine_count :
    (concurrency counter : ℕ) (single_engine : Bool)
    → engine_index concurrency (engine_count concurrency single_engine) counter
      < engine_count concurrency single_engine
unfolding engine_index engine_count
engine_index-engine_count concurrency counter true = ground arith
engine_index-engine_count concurrency counter false = ground arith

-- Dials on a client that has begun to close return net.ErrClosed, whether they come before or after their
-- wait for Start, even with a context that has ended, and they reserve nothing.
pub early-admit :
    (b : Wait) (client_err err : Option Error) (c : Client)
    → (c.state ≡ closing) ⊎ (c.state ≡ closed)
    → (early b client_err err c.state c ≡ some (some net_closed))
      × (admit err c ≡ (some net_closed, c))
unfolding early admit
early-admit b client_err err c (inl e) = rw e (refl, refl)
early-admit b client_err err c (inr e) = rw e (refl, refl)
