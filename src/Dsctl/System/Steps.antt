-- ===== src/Dsctl/System/Steps.antt =====
-- Rules for the programs of Dsctl/System, which name the state that they leave.
use deathstr0ke.Base.{
  ◌≡◌, sym, ap, subst, Bool, true, ◌&&◌, List, [], ◌∷◌, String, Result, ok, err, is_ok, arith,
}
use deathstr0ke.Effects.{Prog, ◌>>=◌, act_half, query}
use deathstr0ke.Effects.Laws.{
  Triple, Caught, pure-Triple, >>=-Triple, act_half-Triple, attempt-Triple, query-Triple, to-Triple,
}
use deathstr0ke.Dsctl.System.{Step, try_all}

-- Nothing is claimed.
abbrev pub Any : {S : Type 0} → S → Type 0
Any s = Unit {0}

module _ {S : Type 0} {s₀ : S} {R : S → Type 0} where
  -- An effect from a known state.
  pub act-At :
      {B : Type 0} {Q : B → S → Type 0} (e : String) (f g : S → S) {k : Prog S B}
      → R s₀
      → R (f s₀)
      → R (g s₀)
      → Triple (λ s. s ≡ f s₀) k Q R
      → Triple (λ s. s ≡ s₀) (act_half e f g >>= λ _. k) Q R
  act-At e f g stay after broken rest =
      >>=-Triple (λ _ s. s ≡ f s₀)
        (act_half-Triple e f g (λ s h. ap f h) (λ s h. subst R (sym h) stay)
          (λ s h. subst R (sym (ap g h)) broken))
        (λ _. rest)

  pub query-At :
      {A B : Type 0} {Q : B → S → Type 0} (e : String) (f : S → Result A) {k : A → Prog S B}
      → R s₀
      → ((a : A) → Triple (λ s. s ≡ s₀) (k a) Q R)
      → Triple (λ s. s ≡ s₀) (query e f >>= k) Q R
  query-At e f stay rest =
      >>=-Triple (λ _ s. s ≡ s₀) (query-Triple e (λ s a h x. h) (λ s h. subst R (sym h) stay)) rest

-- What the state is known to be may hang on a value that is only known to exist.
pub some-Triple :
    {S A B : Type 0} {P : B → S → Type 0} {m : Prog S A} {Q : A → S → Type 0} {R : S → Type 0}
    → ((b : B) → Triple (P b) m Q R)
    → Triple (λ s. (b : B) × P b s) m Q R
some-Triple h = record { run = λ s w p. (h p.0).run s w p.1 }

-- All the steps, one after the other.
unfoldable pub whole_steps : {S : Type 0} → List (Step S) → S → S
whole_steps [] s = s
whole_steps (step ∷ steps) s = whole_steps steps (step.whole s)

both : (a b : Bool) → (a && b) ≡ true → (a ≡ true) × (b ≡ true)
both a b h = ground arith

module _ {S : Type 0} where
  -- Where every step that was tried worked, the state is what the steps make of the first one. What
  -- holds of it may hang on a condition `F`.
  pub try_all-Triple :
      (steps : List (Step S)) (F : Type 0) (s₀ : S)
      → Triple
          (λ s. F → s ≡ s₀)
          (try_all steps)
          (λ b s. F → b ≡ true → s ≡ whole_steps steps s₀)
          Any
  unfolding try_all whole_steps
  try_all-Triple [] F s₀ = pure-Triple true (λ s h x _. h x)
  try_all-Triple (step ∷ steps) F s₀ =
      >>=-Triple (λ r s. F × (is_ok r ≡ true) → s ≡ step.whole s₀)
        (to-Triple caught (
          attempt-Triple (
            act_half-Triple step.name step.whole step.partly (λ s h x. ap step.whole (h x))
              (λ s h. tt) (λ s h. tt))))
        λ r.
          >>=-Triple
            (λ b s. F × (is_ok r ≡ true) → b ≡ true → s ≡ whole_steps steps (step.whole s₀))
            (try_all-Triple steps (F × (is_ok r ≡ true)) (step.whole s₀))
            λ b.
              pure-Triple (is_ok r && b)
                (λ s h x e. h (x, (both (is_ok r) b e).0) (both (is_ok r) b e).1)
    where
      caught :
          (r : Result (Unit {0})) (s : S)
          → Caught (λ _ t. F → t ≡ step.whole s₀) Any r s
          → F × (is_ok r ≡ true)
          → s ≡ step.whole s₀
      caught (ok u) s h x = h x.0
      caught (err e) s h x = cc
