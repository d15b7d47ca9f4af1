-- ===== src/Dns/Labels.antt =====
-- Names compared without the case of letters, and cut at the label of a service.
use cronet_go.Base.{
  ℕ, suc, ◌≤◌, ◌≡◌, refl, sym, ap, ◌∙◌, inl, inr, subst, [], ◌∷◌, ◌++◌, Option, none, some, Bool,
  true, false, ◌&&◌, arith, ◌==◌, length, length-append, drop, drop-append_self, Text, codes,
  has_prefix, Bool-cases, append_assoc,
}
use cronet_go.Paths.{trim_suffix}
use cronet_go.Dns.{
  dot, trim_dot, equal_fold, begins_with, before, split_label, https_label, split_service, rooted,
}

pub equal_fold_refl : (s : Text) → equal_fold s s ≡ true
equal_fold_refl [] = refl
equal_fold_refl (c ∷ cs) = ground (arith, equal_fold_refl cs)

pub equal_fold_sym : (s t : Text) → equal_fold s t ≡ true → equal_fold t s ≡ true
equal_fold_sym [] [] h = refl
equal_fold_sym [] (y ∷ ys) h = cc h
equal_fold_sym (x ∷ xs) [] h = cc h
equal_fold_sym (x ∷ xs) (y ∷ ys) h = ground (arith, equal_fold_sym xs ys)

equal_fold-length : (s t : Text) → equal_fold s t ≡ true → length s ≡ length t
equal_fold-length [] [] h = refl
equal_fold-length [] (y ∷ ys) h = cc h
equal_fold-length (x ∷ xs) [] h = cc h
equal_fold-length (x ∷ xs) (y ∷ ys) h = ap suc (equal_fold-length xs ys (ground arith))

pub equal_fold-append : (p s t : Text) → equal_fold s t ≡ true → equal_fold (p ++ s) (p ++ t) ≡ true
equal_fold-append [] s t h = h
equal_fold-append (c ∷ cs) s t h = ground (arith, equal_fold-append cs s t h)

trim_suffix-append_last : (c : ℕ) (s : Text) → trim_suffix c (s ++ c ∷ []) ≡ s
trim_suffix-append_last c [] = ground arith
trim_suffix-append_last c (x ∷ []) = ap (◌∷◌ x) (trim_suffix-append_last c [])
trim_suffix-append_last c (x ∷ y ∷ ys) = ap (◌∷◌ x) (trim_suffix-append_last c (y ∷ ys))

pub trim_dot-rooted : (s : Text) → trim_dot (rooted s) ≡ s
trim_dot-rooted s = trim_suffix-append_last dot s

begins_with-cut : (label s : Text) → begins_with label s ≡ true → s ≡ label ++ drop (length label) s
begins_with-cut [] s h = refl
begins_with-cut (p ∷ ps) [] h = cc h
begins_with-cut (p ∷ ps) (c ∷ cs) h = ground (arith, begins_with-cut ps cs)

begins_with-append : (label s : Text) → begins_with label (label ++ s) ≡ true
begins_with-append [] s = refl
begins_with-append (p ∷ ps) s = ground (arith, begins_with-append ps s)

-- Whether a text begins with a label is told by a front that is as long.
begins_with-front :
    (label x s t : Text)
    → length label ≤ length x
    → begins_with label (x ++ s) ≡ begins_with label (x ++ t)
begins_with-front [] x s t h = refl
begins_with-front (p ∷ ps) [] s t h = absurd (omega arith)
begins_with-front (p ∷ ps) (c ∷ cs) s t h =
    ap (λ (b : Bool). (p == c) && b) (begins_with-front ps cs s t (omega arith))

some_pair :
    (q t p s : Text)
    → ◌≡◌ {A = Option (Text × Text)} (some (q, t)) (some (p, s))
    → (q ≡ p) × (t ≡ s)
some_pair q t p s h = (ground (arith, h), ground (arith, h))

before_some :
    (c : ℕ) (o : Option (Text × Text)) (p s : Text)
    → before c o ≡ some (p, s)
    → (p' : Text) × (p ≡ c ∷ p') × (o ≡ some (p', s))
before_some c none p s h = cc h
before_some c (some (q, t)) p s h =
    let e = some_pair (c ∷ q) t p s h in (q, sym e.0, ap (λ (x : Text). some (q, x)) e.1)

split_label-yes :
    (label : Text) (c : ℕ) (cs : Text)
    → begins_with label (c ∷ cs) ≡ true
    → split_label label (c ∷ cs) ≡ some ([], drop (length label) (c ∷ cs))
unfolding split_label
split_label-yes label c cs h = rw h refl

split_label-no :
    (label : Text) (c : ℕ) (cs : Text)
    → begins_with label (c ∷ cs) ≡ false
    → split_label label (c ∷ cs) ≡ before c (split_label label cs)
unfolding split_label
split_label-no label c cs h = rw h refl

-- The parts around the first place of a label, and the same first part with any other text behind it.
record Cut (label s p r : Text) : Type 0 where
  whole : s ≡ p ++ (label ++ r)
  again : (t : Text) → split_label label (p ++ (label ++ t)) ≡ some (p, t)

at_once : (l : ℕ) (ls : Text) (t : Text) → split_label (l ∷ ls) ((l ∷ ls) ++ t) ≡ some ([], t)
at_once l ls t =
    split_label-yes (l ∷ ls) l (ls ++ t) (begins_with-append (l ∷ ls) t)
    ∙ ap (λ (x : Text). some ([], x)) (drop-append_self (l ∷ ls) t)

split_label_nil : (label : Text) → split_label label [] ≡ none
unfolding split_label
split_label_nil label = refl

-- No earlier place of the label comes up when the text behind it changes.
not_yet :
    (label : Text) (d : ℕ) (q r t cs : Text)
    → cs ≡ q ++ (label ++ r)
    → begins_with label (d ∷ cs) ≡ false
    → begins_with label (d ∷ (q ++ (label ++ t))) ≡ false
not_yet label d q r t cs e h =
    ap (λ (x : Text). begins_with label (d ∷ x)) (sym (append_assoc q label t))
    ∙ begins_with-front label (d ∷ (q ++ label)) t r (omega (arith, length-append q label))
    ∙ ap (λ (x : Text). begins_with label (d ∷ x)) (append_assoc q label r ∙ sym e)
    ∙ h

behind :
    (label cs r : Text) (d : ℕ) (q : Text)
    → Cut label cs q r
    → begins_with label (d ∷ cs) ≡ false
    → Cut label (d ∷ cs) (d ∷ q) r
behind label cs r d q k later = record {
  whole = ap (◌∷◌ d) k.whole;
  again = λ t.
      split_label-no label d (q ++ (label ++ t)) (not_yet label d q r t cs k.whole later)
      ∙ ap (before d) (k.again t);
}

split_label-Cut :
    (l : ℕ) (ls s p r : Text) → split_label (l ∷ ls) s ≡ some (p, r) → Cut (l ∷ ls) s p r
split_label-Cut l ls [] p r h = cc (split_label_nil (l ∷ ls), h)
split_label-Cut l ls (c ∷ cs) p r h = elim (Bool-cases (begins_with (l ∷ ls) (c ∷ cs))) [
  | inl here ↦
      let e =
        some_pair [] (drop (length (l ∷ ls)) (c ∷ cs)) p r
          (sym (split_label-yes (l ∷ ls) c cs here) ∙ h) in
      subst (λ (q : Text). Cut (l ∷ ls) (c ∷ cs) q r) e.0
        (record {
          whole = begins_with-cut (l ∷ ls) (c ∷ cs) here ∙ ap (◌++◌ (l ∷ ls)) e.1;
          again = at_once l ls;
        })
  | inr later ↦
      let (q, e, f) =
        before_some c (split_label (l ∷ ls) cs) p r
          (sym (split_label-no (l ∷ ls) c cs later) ∙ h) in
      subst (λ (x : Text). Cut (l ∷ ls) (c ∷ cs) x r) (sym e)
        (behind (l ∷ ls) cs r c q (split_label-Cut l ls cs q r f) later)
]

-- A name with a service: its two parts, and the same service before another name.
pub record Service (q p r : Text) : Type 0 where
  pub whole : q ≡ p ++ (https_label ++ r)
  pub again : (t : Text) → split_service (p ++ (https_label ++ t)) ≡ some (p, t)

under_yes : (s : Text) → has_prefix b'_' s ≡ true → split_service s ≡ split_label https_label s
unfolding split_service
under_yes s h = rw h refl

under_no : (s : Text) → has_prefix b'_' s ≡ false → split_service s ≡ none
unfolding split_service
under_no s h = rw h refl

under_front :
    (p r t : Text)
    → has_prefix b'_' (p ++ (https_label ++ r)) ≡ true
    → has_prefix b'_' (p ++ (https_label ++ t)) ≡ true
under_front [] r t h = cc h
under_front (c ∷ cs) r t h = h

pub split_service-Service : (q p r : Text) → split_service q ≡ some (p, r) → Service q p r
split_service-Service q p r h = elim (Bool-cases (has_prefix b'_' q)) [
  | inl under ↦
      let k = split_label-Cut dot (codes "_https.") q p r (sym (under_yes q under) ∙ h) in
      record {
        whole = k.whole;
        again = λ t.
            under_yes (p ++ (https_label ++ t))
              (under_front p r t (ap (has_prefix b'_') (sym k.whole) ∙ under))
            ∙ k.again t;
      }
  | inr other ↦ cc (h, under_no q other)
]

-- A name with a service is longer than the name behind it.
pub service-not-fold : (p t : Text) → equal_fold (p ++ (https_label ++ t)) t ≡ false
service-not-fold p t = elim (Bool-cases (equal_fold (p ++ (https_label ++ t)) t)) [
  | inl e ↦ absurd (
      omega (
        arith,
        equal_fold-length (p ++ (https_label ++ t)) t e,
        length-append p (https_label ++ t),
      ))
  | inr e ↦ e
]
