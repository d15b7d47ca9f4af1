-- ===== src/Request/Queue.antt =====
-- What the queue of a request holds, by kind.
use cronet_go.Base.{ℕ, ◌+◌, ◌≡◌, refl, sym, subst, List, [], ◌∷◌, ◌++◌, arith}
use cronet_go.Request.{Task, callback, terminal_callback, upload_over, cleans_up}

unfoldable pub count : (Task → ℕ) → List Task → ℕ
count w [] = 0
count w (t ∷ q) = w t + count w q

pub count-append_one :
    (w : Task → ℕ) (q : List Task) (t : Task) → count w (q ++ (t ∷ [])) ≡ count w q + w t
unfolding count
count-append_one w [] t = omega arith
count-append_one w (x ∷ q) t = omega (arith, count-append_one w q t)

abbrev pub is_callback : Task → ℕ
is_callback (callback c) = 1
is_callback (terminal_callback e) = 1
is_callback t = 0

abbrev pub is_last : Task → ℕ
is_last (terminal_callback e) = 1
is_last t = 0

abbrev pub is_over : Task → ℕ
is_over upload_over = 1
is_over t = 0

abbrev pub is_cleanup : Task → ℕ
is_cleanup cleans_up = 1
is_cleanup t = 0

-- No callback stands behind the terminal one.
unfoldable pub Ends : List Task → Type 0
Ends [] = Unit {0}
Ends (t ∷ q) = (is_last t ≡ 1 → count is_callback q ≡ 0) × Ends q

pub Ends-append_one :
    (q : List Task) (t : Task) → (count is_last q ≡ 0) → Ends q → Ends (q ++ (t ∷ []))
unfolding Ends count
Ends-append_one [] t none_last v = (λ e. refl, tt)
Ends-append_one (x ∷ q) t none_last (f, v) =
    (λ e. absurd (omega (arith, e, none_last)), Ends-append_one q t (omega (arith, none_last)) v)

-- Neither is an order of callbacks disturbed by what is none.
pub Ends-append_other :
    (q : List Task) (t : Task) → is_callback t ≡ 0 → Ends q → Ends (q ++ (t ∷ []))
unfolding Ends count
Ends-append_other [] t other v = (λ e. refl, tt)
Ends-append_other (x ∷ q) t other (f, v) = (
  λ e. omega (arith, count-append_one is_callback q t, other, f e),
  Ends-append_other q t other v,
)

-- The counts of a queue with a task added behind or taken from the front.
pub record Counts (f g : List Task) (t : Task) : Type 0 where
  pub callbacks : count is_callback f ≡ count is_callback g + is_callback t
  pub lasts : count is_last f ≡ count is_last g + is_last t
  pub overs : count is_over f ≡ count is_over g + is_over t
  pub cleanups : count is_cleanup f ≡ count is_cleanup g + is_cleanup t

pub added : (q : List Task) (t : Task) → Counts (q ++ (t ∷ [])) q t
added q t = record {
  callbacks = count-append_one is_callback q t;
  lasts = count-append_one is_last q t;
  overs = count-append_one is_over q t;
  cleanups = count-append_one is_cleanup q t;
}

pub removed : (q : List Task) (t : Task) → Counts (t ∷ q) q t
unfolding count
removed q t = record {
  callbacks = omega arith;
  lasts = omega arith;
  overs = omega arith;
  cleanups = omega arith;
}

pub popped : (f g : List Task) (t : Task) → f ≡ t ∷ g → Counts f g t
popped f g t e = subst (λ (h : List Task). Counts h g t) (sym e) (removed g t)

pub Ends-tail :
    (f g : List Task) (t : Task)
    → f ≡ t ∷ g
    → Ends f
    → (is_last t ≡ 1 → count is_callback g ≡ 0) × Ends g
unfolding Ends
Ends-tail f g t e v = subst Ends e v
