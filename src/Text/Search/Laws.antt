-- ===== src/Text/Search/Laws.antt =====
-- Lemmas on what `find` finds.
use deathstr0ke.Base.{
  ℕ, suc, ◌≤◌, length-append, ◌≡◌, refl, sym, ap, ◌∙◌, Bool, true, false, [], ◌∷◌, ◌++◌, Option,
  none, some, arith, length, ◌==◌, ◌||◌, ==_iff, Bool-cases, subst, inl, inr,
}
use deathstr0ke.Text.{Text, starts_with, strip_prefix, contains_text}
use deathstr0ke.Text.Search.{find, shift, take, drop}

-- A text that starts with another one is that one and the rest.
pub starts_with-append : (p s : Text) → starts_with p s ≡ true → s ≡ p ++ drop (length p) s
unfolding starts_with strip_prefix
starts_with-append [] s h = refl
starts_with-append (c ∷ p) [] h = cc
starts_with-append (c ∷ p) (d ∷ s) h = elim (Bool-cases (c == d)) [
  | inl e ↦ ground (arith, starts_with-append p s, ==_iff c d)
  | inr e ↦ ground arith
]

at_start :
    (p s : Text) {k : ℕ}
    → starts_with p s ≡ true
    → k ≡ 0
    → s ≡ take k s ++ p ++ drop (length p) (drop k s)
at_start p s {k} h e =
    subst (λ n. s ≡ take n s ++ p ++ drop (length p) (drop n s)) (sym e) (starts_with-append p s h)

found_later : (o : Option ℕ) {k : ℕ} → shift o ≡ some k → (n : ℕ) × (o ≡ some n) × (k ≡ suc n)
unfolding shift
found_later none h = cc
found_later (some n) h = (n, refl, cc)

-- The slices at a position that was found.
pub find-append :
    (p s : Text) {k : ℕ} → find p s ≡ some k → s ≡ take k s ++ p ++ drop (length p) (drop k s)
unfolding find
find-append p [] {k} h = elim (Bool-cases (starts_with p [])) [
  | inl e ↦ at_start p [] e (ground arith)
  | inr e ↦ ground arith
]
find-append p (c ∷ s) {k} h = elim (Bool-cases (starts_with p (c ∷ s))) [
  | inl e ↦ at_start p (c ∷ s) e (ground arith)
  | inr e ↦
      let (n, found, next) =
        found_later (find p s) {k = k}
          (subst (λ b. (elim b [ true ↦ some 0 | false ↦ shift (find p s) ]) ≡ some k) e h) in
      subst (λ m. c ∷ s ≡ take m (c ∷ s) ++ p ++ drop (length p) (drop m (c ∷ s))) (sym next)
        (ap (λ t. c ∷ t) (find-append p s found))
]

shift-none : (o : Option ℕ) → shift o ≡ none → o ≡ none
unfolding shift
shift-none none h = refl
shift-none (some n) h = cc

pub contains_text-find : (p s : Text) → find p s ≡ none → contains_text p s ≡ false
unfolding find contains_text
contains_text-find p [] h = ground arith
contains_text-find p (c ∷ s) h = elim (Bool-cases (starts_with p (c ∷ s))) [
  | inl e ↦ ground arith
  | inr e ↦ rw e (
      contains_text-find p s (
        shift-none (find p s)
          (subst (λ b. (elim b [ true ↦ some 0 | false ↦ shift (find p s) ]) ≡ none) e h)))
]

starts_with-append_l : (p s t : Text) → starts_with p s ≡ true → starts_with p (s ++ t) ≡ true
unfolding starts_with strip_prefix
starts_with-append_l [] s t h = refl
starts_with-append_l (c ∷ p) [] t h = cc
starts_with-append_l (c ∷ p) (d ∷ s) t h = elim (Bool-cases (c == d)) [
  | inl e ↦ ground (arith, starts_with-append_l p s t)
  | inr e ↦ ground arith
]

empty_prefix : (p : Text) → starts_with p [] ≡ true → p ≡ []
unfolding starts_with strip_prefix
empty_prefix [] h = refl
empty_prefix (c ∷ p) h = cc

contains_empty : (t : Text) → contains_text [] t ≡ true
unfolding contains_text starts_with strip_prefix
contains_empty [] = refl
contains_empty (c ∷ t) = refl

-- What a part contains, the whole contains.
pub contains_text-append_l :
    (p s t : Text) → contains_text p s ≡ true → contains_text p (s ++ t) ≡ true
unfolding contains_text
contains_text-append_l p [] t h = rw (empty_prefix p h) (contains_empty t)
contains_text-append_l p (c ∷ s) t h = elim (Bool-cases (starts_with p (c ∷ s))) [
  | inl e ↦ rw (starts_with-append_l p (c ∷ s) t e) refl
  | inr e ↦
      or_right (starts_with p (c ∷ s ++ t))
        (contains_text-append_l p s t (rest (starts_with p (c ∷ s)) e h))
]
  where
    or_right : (a : Bool) {b : Bool} → b ≡ true → (a || b) ≡ true
    or_right a h = ground arith

    rest : (a : Bool) {b : Bool} → a ≡ false → (a || b) ≡ true → b ≡ true
    rest a e h = ground arith

pub contains_text-append_r :
    (p s t : Text) → contains_text p t ≡ true → contains_text p (s ++ t) ≡ true
unfolding contains_text
contains_text-append_r p [] t h = h
contains_text-append_r p (c ∷ s) t h = ground (arith, contains_text-append_r p s t h)

-- Whether a text starts with another one is settled by as many characters as that one has.
starts_with_within :
    (p u r t : Text) → length p ≤ length u → starts_with p (u ++ r) ≡ starts_with p (u ++ t)
unfolding starts_with strip_prefix
starts_with_within [] u r t h = refl
starts_with_within (c ∷ p) [] r t h = ground arith
starts_with_within (c ∷ p) (d ∷ u) r t h = elim (Bool-cases (c == d)) [
  | inl e ↦ rw e (starts_with_within p u r t (omega (arith, h)))
  | inr e ↦ rw e refl
]

starts_with_self : (p r : Text) → starts_with p (p ++ r) ≡ true
unfolding starts_with strip_prefix
starts_with_self [] r = refl
starts_with_self (c ∷ p) r = ground (arith, starts_with_self p r)

find_self : (p r : Text) → find p (p ++ r) ≡ some 0
unfolding find
find_self p r = by_form (p ++ r) (starts_with_self p r)
  where
    by_form : (s : Text) → starts_with p s ≡ true → find p s ≡ some 0
    by_form [] e = rw (find, e) refl
    by_form (c ∷ s) e = rw (find, e) refl

find_later :
    (p x : Text) (c : ℕ) → starts_with p (c ∷ x) ≡ false → find p (c ∷ x) ≡ shift (find p x)
unfolding find shift
find_later p x c e = rw (find, e) refl

-- The first occurrence stays the first one, whatever comes behind it.
pub find_prefix : (p s r : Text) {k : ℕ} → find p s ≡ some k → find p (take k s ++ p ++ r) ≡ some k
unfolding find
find_prefix p [] r {k} h = elim (Bool-cases (starts_with p [])) [
  | inl e ↦ subst (λ n. find p (take n [] ++ p ++ r) ≡ some n) (ground arith) (find_self p r)
  | inr e ↦ ground arith
]
find_prefix p (c ∷ s) r {k} h = elim (Bool-cases (starts_with p (c ∷ s))) [
  | inl e ↦ subst (λ n. find p (take n (c ∷ s) ++ p ++ r) ≡ some n) (ground arith) (find_self p r)
  | inr e ↦
      let (n, found, next) =
        found_later (find p s) {k = k}
          (subst (λ b. (elim b [ true ↦ some 0 | false ↦ shift (find p s) ]) ≡ some k) e h) in
      subst (λ m. find p (take m (c ∷ s) ++ p ++ r) ≡ some m) (sym next)
        (find_later p (take n s ++ p ++ r) c (not_here n (find-append p s found) e)
          ∙ ap shift (find_prefix p s r found)
          ∙ shifted n)
]
  where
    shifted : (n : ℕ) → shift (some n) ≡ some (suc n)
    shifted n = unfold shift in refl

    not_here :
        (n : ℕ)
        → s ≡ take n s ++ p ++ drop (length p) (drop n s)
        → starts_with p (c ∷ s) ≡ false
        → starts_with p (c ∷ (take n s ++ p ++ r)) ≡ false
    not_here n whole e =
        starts_with_within p (c ∷ (take n s ++ p)) r (drop (length p) (drop n s))
          (omega (arith, length-append (take n s) p))
        ∙ subst (λ x. starts_with p (c ∷ x) ≡ false) whole e

-- What stands behind the characters before the first occurrence.
pub drop_prefix : (p s r : Text) {k : ℕ} → find p s ≡ some k → drop k (take k s ++ p ++ r) ≡ p ++ r
unfolding find
drop_prefix p [] r {k} h = elim (Bool-cases (starts_with p [])) [
  | inl e ↦
      (let z : 0 ≡ k = ground arith in subst (λ n. drop n (take n [] ++ p ++ r) ≡ p ++ r) z refl)
  | inr e ↦ ground arith
]
drop_prefix p (c ∷ s) r {k} h = elim (Bool-cases (starts_with p (c ∷ s))) [
  | inl e ↦
      (let z : 0 ≡ k = ground arith in
        subst (λ n. drop n (take n (c ∷ s) ++ p ++ r) ≡ p ++ r) z refl)
  | inr e ↦
      let (n, found, next) =
        found_later (find p s) {k = k}
          (subst (λ b. (elim b [ true ↦ some 0 | false ↦ shift (find p s) ]) ≡ some k) e h) in
      subst (λ m. drop m (take m (c ∷ s) ++ p ++ r) ≡ p ++ r) (sym next) (drop_prefix p s r found)
]
