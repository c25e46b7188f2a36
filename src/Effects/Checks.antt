-- ===== src/Effects/Checks.antt =====
-- Checks that read the state a program starts from: what they found is at hand for the rest.
use deathstr0ke.Base.{
  ◌≡◌, refl, ◌∙◌, sym, ap, subst, Result, ok, Bool, true, false, not, String, bail_if,
}
use deathstr0ke.Effects.{Prog, ◌>>=◌, lift}
use deathstr0ke.Effects.Laws.{Triple, >>=-Triple, lift-Triple, given-Triple, from-Triple}

-- A failed check leaves the start state, so `stay` is all that is wanted of an error.
pub check-Triple :
    {S A B : Type 0} {s₀ : S} {R : S → Type 0} {Q : B → S → Type 0} (f : S → Result A)
    {k : A → Prog S B}
    → R s₀
    → ((a : A) → f s₀ ≡ ok a → Triple (λ s. s ≡ s₀) (k a) Q R)
    → Triple (λ s. s ≡ s₀) (lift f >>= k) Q R
check-Triple {S} {A} {B} {s₀ = s₀} {R = R} f stay rest =
    >>=-Triple (λ a s. (s ≡ s₀) × (f s₀ ≡ ok a))
      (lift-Triple (λ s a h e. (h, ap f (sym h) ∙ e)) (λ s h. subst R (sym h) stay))
      λ a.
        given-Triple (λ s h. h.1) λ (found : f s₀ ≡ ok a). from-Triple (λ s h. h.0) (rest a found)

-- What a `bail!` that was passed says of its condition.
pub passed_not : (b : Bool) (e : String) {u : Unit {0}} → bail_if (not b) e ≡ ok u → b ≡ true
passed_not true e h = refl
passed_not false e h = cc

pub passed : (b : Bool) (e : String) {u : Unit {0}} → bail_if b e ≡ ok u → b ≡ false
passed true e h = cc
passed false e h = refl
