-- ===== src/Effects/Laws.antt =====
-- Rules for programs with effects. `Triple` says where a program ends, whatever the fates are;
-- `Keeps` is its case of one property that holds all along, after an error and at a power cut too.
use deathstr0ke.Base.{◌≡◌, refl, String, List, [], ◌∷◌, Result, ok, err, Bool, true, false}
use deathstr0ke.Effects.{
  Fate, works, fails, half, cut, Run, done, failed, dead, Prog, final, pure, fail, ◌>>=◌, lift, act,
  act_half, query, attempt, zoom, when,
}

-- Where a run may end: `Q` of the value and the state if it returned, `R` of the state otherwise.
abbrev pub Ends : {S A : Type 0} → (A → S → Type 0) → (S → Type 0) → Run S A → Type 0
Ends Q R (done a s w) = Q a s
Ends Q R (failed e s w) = R s
Ends Q R (dead s) = R s

-- From `P`, the program ends in `Q`, or in `R` after an error or a power cut.
pub record Triple {S A : Type 0} (P : S → Type 0) (m : Prog S A) (Q : A → S → Type 0)
    (R : S → Type 0) : Type 0 where
  pub run : (s : S) (w : List Fate) → P s → Ends Q R (m s w)

abbrev pub Keeps : {S A : Type 0} → (S → Type 0) → Prog S A → Type 0
Keeps P m = Triple P m (λ _. P) P

Ends-final : {S A : Type 0} (P : S → Type 0) (r : Run S A) → Ends (λ _. P) P r → P (final r)
Ends-final P (done a s w) h = h
Ends-final P (failed e s w) h = h
Ends-final P (dead s) h = h

-- What holds behind every end holds of the state at the end.
pub final-Triple :
    {S A : Type 0} {P Q : S → Type 0} {m : Prog S A}
    → Triple P m (λ _. Q) Q
    → (s : S) (w : List Fate) → P s
    → Q (final (m s w))
final-Triple {Q = Q} {m = m} t s w h = Ends-final Q (m s w) (t.run s w h)

-- What is kept holds of the state at the end.
pub final-Keeps :
    {S A : Type 0} (P : S → Type 0) (m : Prog S A)
    → Keeps P m
    → (s : S) (w : List Fate) → P s
    → P (final (m s w))
final-Keeps P m k s w h = Ends-final P (m s w) (k.run s w h)

module _ {S : Type 0} {P R : S → Type 0} where
  pub pure-Triple :
      {A : Type 0} {Q : A → S → Type 0} (a : A) → ((s : S) → P s → Q a s) → Triple P (pure a) Q R
  unfolding pure
  pure-Triple a h = record { run = λ s w p. h s p }

  pub fail-Triple :
      {A : Type 0} {Q : A → S → Type 0} (e : String) → ((s : S) → P s → R s) → Triple P (fail e) Q R
  unfolding fail
  fail-Triple e h = record { run = λ s w p. h s p }

  pub >>=-Triple :
      {A B : Type 0} (Q : A → S → Type 0) {Q' : B → S → Type 0} {m : Prog S A} {f : A → Prog S B}
      → Triple P m Q R
      → ((a : A) → Triple (Q a) (f a) Q' R)
      → Triple P (m >>= f) Q' R
  unfolding ◌>>=◌
  >>=-Triple {A} {B} Q {Q' = Q'} {m = m} {f = f} hm hf = record {
    run = λ s w h. go (m s w) (hm.run s w h);
  }
    where
      go :
          (r : Run S A)
          → Ends Q R r
          → Ends Q' R (elim r [
            | done a s' w' ↦ f a s' w'
            | failed e s' w' ↦ failed e s' w'
            | dead s' ↦ dead s'
          ])
      go (done a s' w') k = (hf a).run s' w' k
      go (failed e s' w') k = k
      go (dead s') k = k

  pub lift-Triple :
      {A : Type 0} {Q : A → S → Type 0} {f : S → Result A}
      → ((s : S) (a : A) → P s → f s ≡ ok a → Q a s)
      → ((s : S) → P s → R s)
      → Triple P (lift f) Q R
  unfolding lift
  lift-Triple {A} {Q = Q} {f = f} hq hr = record { run = λ s w h. go s w (f s) refl h }
    where
      go :
          (s : S) (w : List Fate) (r : Result A)
          → f s ≡ r
          → P s
          → Ends Q R (lift (λ (_ : S). r) s w)
      go s w (ok a) e h = hq s a h e
      go s w (err x) e h = hr s h

  pub query-Triple :
      {A : Type 0} {Q : A → S → Type 0} (e : String) {f : S → Result A}
      → ((s : S) (a : A) → P s → f s ≡ ok a → Q a s)
      → ((s : S) → P s → R s)
      → Triple P (query e f) Q R
  unfolding query lift
  query-Triple {A} {Q = Q} e {f = f} hq hr = record { run = go }
    where
      go : (s : S) (w : List Fate) → P s → Ends Q R (query e f s w)
      go s [] h = (lift-Triple hq hr).run s [] h
      go s (works ∷ w) h = (lift-Triple hq hr).run s w h
      go s (fails ∷ w) h = hr s h
      go s (half ∷ w) h = hr s h
      go s (cut ∷ w) h = hr s h

  pub act_half-Triple :
      {Q : S → Type 0} (e : String) (f g : S → S)
      → ((s : S) → P s → Q (f s))
      → ((s : S) → P s → R s)
      → ((s : S) → P s → R (g s))
      → Triple P (act_half e f g) (λ _. Q) R
  unfolding act_half
  act_half-Triple {Q = Q} e f g hq hr hg = record { run = go }
    where
      go : (s : S) (w : List Fate) → P s → Ends (λ _. Q) R (act_half e f g s w)
      go s [] h = hq s h
      go s (works ∷ w) h = hq s h
      go s (fails ∷ w) h = hr s h
      go s (half ∷ w) h = hg s h
      go s (cut ∷ w) h = hr s h

  pub when-Triple :
      {Q : S → Type 0} (b : Bool) {m : Prog S (Unit {0})}
      → (b ≡ true → Triple P m (λ _. Q) R)
      → (b ≡ false → (s : S) → P s → Q s)
      → Triple P (when b m) (λ _. Q) R
  unfolding when
  when-Triple true h k = record { run = λ s w p. (h refl).run s w p }
  when-Triple false h k = record { run = λ s w p. k refl s p }

-- An attempt does not fail: what an error left is described by `E`.
abbrev pub Caught : {S A : Type 0} → (A → S → Type 0) → (S → Type 0) → Result A → S → Type 0
Caught Q E (ok a) s = Q a s
Caught Q E (err e) s = E s

module _ {S : Type 0} {P R : S → Type 0} where
  pub attempt-Triple :
      {A : Type 0} {Q : A → S → Type 0} {m : Prog S A}
      → Triple P m Q R
      → Triple P (attempt m) (Caught Q R) R
  unfolding attempt
  attempt-Triple {A} {Q = Q} {m = m} hm = record { run = λ s w h. go s w (m s w) (hm.run s w h) }
    where
      go :
          (s : S) (w : List Fate) (r : Run S A)
          → Ends Q R r
          → Ends (Caught Q R) R (attempt (λ (_ : S) (_ : List Fate). r) s w)
      go s w (done a s' w') k = k
      go s w (failed e s' w') k = k
      go s w (dead s') k = k

-- The rules for a property that each effect keeps.
module _ {S : Type 0} {P : S → Type 0} where
  pub pure-Keeps : {A : Type 0} (a : A) → Keeps P (pure a)
  pure-Keeps a = pure-Triple a (λ s h. h)

  pub fail-Keeps : {A : Type 0} (e : String) → Keeps P (fail {A = A} e)
  fail-Keeps e = fail-Triple e (λ s h. h)

  pub >>=-Keeps :
      {A B : Type 0} {m : Prog S A} {f : A → Prog S B}
      → Keeps P m
      → ((a : A) → Keeps P (f a))
      → Keeps P (m >>= f)
  >>=-Keeps hm hf = >>=-Triple (λ _. P) hm hf

  pub lift-Keeps : {A : Type 0} (f : S → Result A) → Keeps P (lift f)
  lift-Keeps f = lift-Triple (λ s a h e. h) (λ s h. h)

  pub query-Keeps : {A : Type 0} (e : String) (f : S → Result A) → Keeps P (query e f)
  query-Keeps e f = query-Triple e (λ s a h x. h) (λ s h. h)

  pub act-Keeps : (e : String) (f : S → S) → ((s : S) → P s → P (f s)) → Keeps P (act e f)
  act-Keeps e f hf = act_half-Triple e f f hf (λ s h. h) hf

  pub when-Keeps : (b : Bool) {m : Prog S (Unit {0})} → Keeps P m → Keeps P (when b m)
  when-Keeps b h = when-Triple b (λ _. h) (λ _ s k. k)

  -- A caught failure keeps the property too.
  pub attempt-Keeps : {A : Type 0} {m : Prog S A} → Keeps P m → Keeps P (attempt m)
  attempt-Keeps {A} h = record { run = λ s w k. caught _ ((attempt-Triple h).run s w k) }
    where
      caught : (r : Run S (Result A)) → Ends (Caught (λ _. P) P) P r → Ends (λ _. P) P r
      caught (done (ok a) s w) k = k
      caught (done (err e) s w) k = k
      caught (failed e s w) k = k
      caught (dead s) k = k

  pub zoom-Keeps :
      {T A : Type 0} (get : S → T) (put : S → T → S) (m : Prog T A)
      → ((s : S) (t : T) → P s → P (put s t))
      → Keeps P (zoom get put m)
  unfolding zoom
  zoom-Keeps {T} {A} get put m h = record { run = λ s w k. go s (m (get s) w) w k }
    where
      go :
          (s : S) (r : Run T A) (w : List Fate)
          → P s
          → Ends (λ (_ : A). P) P (zoom get put (λ (_ : T) (_ : List Fate). r) s w)
      go s (done a t v) w k = h s t k
      go s (failed e t v) w k = h s t k
      go s (dead t) w k = h s t k

module _ {S A : Type 0} {P R : S → Type 0} {Q : A → S → Type 0} {m : Prog S A} where
  -- A fact that the precondition gives is at hand for the choice of the proof.
  pub given-Triple : {F : Type 0} → ((s : S) → P s → F) → (F → Triple P m Q R) → Triple P m Q R
  given-Triple f k = record { run = λ s w h. (k (f s h)).run s w h }

  pub from-Triple : {P' : S → Type 0} → ((s : S) → P s → P' s) → Triple P' m Q R → Triple P m Q R
  from-Triple f k = record { run = λ s w h. k.run s w (f s h) }

  -- A property that is kept holds behind the program too, beside what else is known.
  pub to-Triple :
      {Q' : A → S → Type 0} → ((a : A) (s : S) → Q a s → Q' a s) → Triple P m Q R → Triple P m Q' R
  to-Triple {Q' = Q'} f k = record { run = λ s w h. go (m s w) (k.run s w h) }
    where
      go : (r : Run S A) → Ends Q R r → Ends Q' R r
      go (done a s w) h = f a s h
      go (failed e s w) h = h
      go (dead s) h = h

  -- Nothing need be said of a run that did not return.
  pub loosen-Triple : {R' : S → Type 0} → ((s : S) → R s → R' s) → Triple P m Q R → Triple P m Q R'
  loosen-Triple {R' = R'} f k = record { run = λ s w h. go (m s w) (k.run s w h) }
    where
      go : (r : Run S A) → Ends Q R r → Ends Q R' r
      go (done a s w) h = h
      go (failed e s w) h = f s h
      go (dead s) h = f s h

-- A fact that does not hang on the state.
pub fact-Triple :
    {S A : Type 0} {P : S → Type 0} {F : Type 0} (m : Prog S A) → F → Triple P m (λ _ _. F) (λ _. F)
fact-Triple {S} {A} {F = F} m x = record { run = λ s w h. go (m s w) }
  where
    go : (r : Run S A) → Ends (λ _ _. F) (λ _. F) r
    go (done a s w) = x
    go (failed e s w) = x
    go (dead s) = x
