-- ===== src/Effects/Errors.antt =====
-- Which error a program ends with, and what of it was done before.
use deathstr0ke.Base.{◌≡◌, ◌∙◌, refl, String, List, [], ◌∷◌, Result, ok, err}
use deathstr0ke.Effects.{
  Fate, works, fails, half, cut, Run, done, failed, dead, Prog, run_result, ◌>>=◌, lift, act_half,
  query, attempt,
}

-- A program that does not end with this error.
abbrev pub Avoids : {S A : Type 0} → String → Prog S A → Type 0
Avoids {S} {A} e p = (s t : S) (w v : List Fate) → p s w ≡ failed e t v → ⊥

-- Where a program ends with an error that its first part avoids, that part was done.
pub behind :
    {S A B : Type 0} (e : String) (p : Prog S A) (k : A → Prog S B)
    → Avoids e p
    → (s t : S) (w v : List Fate) → (p >>= k) s w ≡ failed e t v
    → (a : A) × (u : S) × (x : List Fate) × (p s w ≡ done a u x) × (k a u x ≡ failed e t v)
unfolding ◌>>=◌
behind {S} {A} {B} e p k avoids s t w v h = by_run (p s w) refl h
  where
    same :
        {r : Run S A} {x : String} {u : S} {y : List Fate}
        → r ≡ failed x u y
        → ◌≡◌ {A = Run S B} (failed x u y) (failed e t v)
        → r ≡ failed e t v
    same l k = cc

    by_run :
        (r : Run S A)
        → p s w ≡ r
        → ◌≡◌ {A = Run S B}
            (elim r [
              | done a s' w' ↦ k a s' w'
              | failed x s' w' ↦ failed x s' w'
              | dead s' ↦ dead s'
            ])
            (failed e t v)
        → (a : A) × (u : S) × (x : List Fate) × (p s w ≡ done a u x) × (k a u x ≡ failed e t v)
    by_run (done a u x) l h = (a, u, x, l, h)
    by_run (failed x u y) l h = absurd (avoids s t w v (same l h))
    by_run (dead u) l h = cc

pub failed_state :
    {S A : Type 0} {x e : String} {s t : S} {w v : List Fate}
    → ◌≡◌ {A = Run S A} (failed x s w) (failed e t v)
    → t ≡ s
failed_state k = cc

pub failed_message :
    {S A : Type 0} {x e : String} {s t : S} {w v : List Fate}
    → ◌≡◌ {A = Run S A} (failed x s w) (failed e t v)
    → x ≡ e
failed_message k = cc

pub lift-Avoids :
    {S A : Type 0} (e : String) (f : S → Result A) → ((s : S) → f s ≡ err e → ⊥) → Avoids e (lift f)
unfolding lift
lift-Avoids {S} {A} e f h s t w v k = by_result (f s) refl k
  where
    by_result : (r : Result A) → f s ≡ r → run_result r s w ≡ failed e t v → ⊥
    by_result (ok a) l k = cc
    by_result (err x) l k = h s (l ∙ same k)
      where
        same : ◌≡◌ {A = Run S A} (failed x s w) (failed e t v) → ◌≡◌ {A = Result A} (err x) (err e)
        same k = cc

pub lift-done :
    {S A : Type 0} (f : S → Result A) {s u : S} {a : A} (w : List Fate) {x : List Fate}
    → lift f s w ≡ done a u x
    → (f s ≡ ok a) × (u ≡ s)
unfolding lift
lift-done {S} {A} f {s} {u} {a} w {x} k = by_result (f s) refl k
  where
    by_result : (r : Result A) → f s ≡ r → run_result r s w ≡ done a u x → (f s ≡ ok a) × (u ≡ s)
    by_result (ok b) l k = (l ∙ (unfold lift in cc), cc)
    by_result (err y) l k = cc

pub query-Avoids :
    {S A : Type 0} (e message : String) (a : A)
    → (message ≡ e → ⊥)
    → Avoids {S = S} e (query message (λ s. ok a))
unfolding query
query-Avoids e message a h s t [] v k = cc
query-Avoids e message a h s t (works ∷ w) v k = cc
query-Avoids e message a h s t (fails ∷ w) v k = h (failed_message k)
query-Avoids e message a h s t (half ∷ w) v k = h (failed_message k)
query-Avoids e message a h s t (cut ∷ w) v k = cc

pub query-done :
    {S A : Type 0} (message : String) (a : A) {s u : S} {b : A} (w : List Fate) {x : List Fate}
    → query message (λ s. ok a) s w ≡ done b u x
    → u ≡ s
unfolding query
query-done message a [] k = cc
query-done message a (works ∷ w) k = cc
query-done message a (fails ∷ w) k = cc
query-done message a (half ∷ w) k = cc
query-done message a (cut ∷ w) k = cc

pub act-Avoids :
    {S : Type 0} (e message : String) (f : S → S)
    → (message ≡ e → ⊥)
    → Avoids e (act_half message f f)
unfolding act_half
act-Avoids e message f h s t [] v k = cc
act-Avoids e message f h s t (works ∷ w) v k = cc
act-Avoids e message f h s t (fails ∷ w) v k = h (failed_message k)
act-Avoids e message f h s t (half ∷ w) v k = h (failed_message k)
act-Avoids e message f h s t (cut ∷ w) v k = cc

pub act-done :
    {S : Type 0} (message : String) (f : S → S) {s u : S} (w : List Fate) {x : List Fate}
    → act_half message f f s w ≡ done tt u x
    → u ≡ f s
unfolding act_half
act-done message f [] k = cc
act-done message f (works ∷ w) k = cc
act-done message f (fails ∷ w) k = cc
act-done message f (half ∷ w) k = cc
act-done message f (cut ∷ w) k = cc

pub attempt-Avoids : {S A : Type 0} (e : String) (p : Prog S A) → Avoids e (attempt p)
unfolding attempt
attempt-Avoids {S} {A} e p s t w v k = by_run (p s w) k
  where
    by_run :
        (r : Run S A)
        → ◌≡◌ {A = Run S (Result A)}
            (elim r [
              | done a s' w' ↦ done (ok a) s' w'
              | failed x s' w' ↦ done (err x) s' w'
              | dead s' ↦ dead s'
            ])
            (failed e t v)
        → ⊥
    by_run (done a u x) k = cc
    by_run (failed x u y) k = cc
    by_run (dead u) k = cc
