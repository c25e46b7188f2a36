-- ===== src/Effects.antt =====
-- Programs with effects on an outside state. Each effect meets a fate that the environment chooses:
-- it works, it fails and does nothing, it happens but reports an error, or the power is cut before
-- it. Where the list of fates has ended, every effect works. Theorems range over all lists.
pub mod Laws
pub mod Runs
pub mod Checks
pub mod Errors
use deathstr0ke.Base.{String, List, [], ◌∷◌, Option, none, some, Result, ok, err, Bool, true, false}

pub data Fate : Type 0 where
  works fails half cut : Fate

-- How a program ends: with a value, with an error, or by a power cut. The outside state is what it
-- is then, and the fates are those that are left.
pub data Run (S A : Type 0) : Type 0 where
  done : A → S → List Fate → Run S A
  failed : String → S → List Fate → Run S A
  dead : S → Run S A

abbrev pub Prog : Type 0 → Type 0 → Type 0
Prog S A = S → List Fate → Run S A

abbrev pub final : {S A : Type 0} → Run S A → S
final (done a s w) = s
final (failed e s w) = s
final (dead s) = s

unfoldable pub pure : {S A : Type 0} → A → Prog S A
pure a s w = done a s w

-- `bail!`
unfoldable pub fail : {S A : Type 0} → String → Prog S A
fail e s w = failed e s w

infixl 5 ◌>>=◌ ◌>>◌
unfoldable pub ◌>>=◌ : {S A B : Type 0} → Prog S A → (A → Prog S B) → Prog S B
◌>>=◌ m f s w = elim (m s w) [
  | done a s' w' ↦ f a s' w'
  | failed e s' w' ↦ failed e s' w'
  | dead s' ↦ dead s'
]

abbrev pub ◌>>◌ : {S B : Type 0} → Prog S (Unit {0}) → Prog S B → Prog S B
m >> k = m >>= λ _. k

-- A computation with no effect, from the state that stands.
abbrev pub run_result : {S A : Type 0} → Result A → Prog S A
run_result (ok a) s w = done a s w
run_result (err e) s w = failed e s w

unfoldable pub lift : {S A : Type 0} → (S → Result A) → Prog S A
lift f s w = run_result (f s) s w

-- A step that cannot fail.
unfoldable pub modify : {S : Type 0} → (S → S) → Prog S (Unit {0})
modify f s w = done tt (f s) w

-- An effect; the second function is what is left behind where it happens by half.
unfoldable pub act_half : {S : Type 0} → String → (S → S) → (S → S) → Prog S (Unit {0})
act_half message f g s [] = done tt (f s) []
act_half message f g s (works ∷ w) = done tt (f s) w
act_half message f g s (fails ∷ w) = failed message s w
act_half message f g s (half ∷ w) = failed message (g s) w
act_half message f g s (cut ∷ w) = dead s

abbrev pub act : {S : Type 0} → String → (S → S) → Prog S (Unit {0})
act message f = act_half message f f

-- A question to the outside, which may fail as a call.
unfoldable pub query : {S A : Type 0} → String → (S → Result A) → Prog S A
query message f s [] = run_result (f s) s []
query message f s (works ∷ w) = run_result (f s) s w
query message f s (fails ∷ w) = failed message s w
query message f s (half ∷ w) = failed message s w
query message f s (cut ∷ w) = dead s

-- The result as a value. A power cut cannot be caught.
unfoldable pub attempt : {S A : Type 0} → Prog S A → Prog S (Result A)
attempt m s w = elim (m s w) [
  | done a s' w' ↦ done (ok a) s' w'
  | failed e s' w' ↦ done (err e) s' w'
  | dead s' ↦ dead s'
]

-- A program on a part of a larger state.
unfoldable pub zoom : {T S A : Type 0} → (T → S) → (T → S → T) → Prog S A → Prog T A
zoom get put m t w = elim (m (get t) w) [
  | done a s w' ↦ done a (put t s) w'
  | failed e s w' ↦ failed e (put t s) w'
  | dead s ↦ dead (put t s)
]

unfoldable pub when : {S : Type 0} → Bool → Prog S (Unit {0}) → Prog S (Unit {0})
unfolding pure
when true m = m
when false m = pure tt
