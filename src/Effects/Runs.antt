-- ===== src/Effects/Runs.antt =====
-- What single runs come to, one rule for each way of composing programs.
use deathstr0ke.Base.{◌≡◌, refl, sym, subst, ◌∙◌, String, List, [], Result, ok}
use deathstr0ke.Effects.{
  Fate, Run, done, Prog, pure, ◌>>=◌, lift, modify, act_half, attempt, query, zoom,
}

-- From `s` and the fates `w`, the program comes to `r`.
pub record Comes {S A : Type 0} (m : Prog S A) (s : S) (w : List Fate) (r : Run S A) : Type 0 where
  pub run : m s w ≡ r

module _ {S : Type 0} where
  pub >>=-Comes :
      {A B : Type 0} {m : Prog S A} (f : A → Prog S B) {a : A} {s s' : S} {w w' : List Fate}
      {r : Run S B}
      → Comes m s w (done a s' w')
      → Comes (f a) s' w' r
      → Comes (m >>= f) s w r
  >>=-Comes {A} {B} f {a = a} {s = s} {s' = s'} {w = w} {w' = w'} c k = record {
    run =
        unfold ◌>>=◌ in
        subst (λ x. ((λ (_ : S) (_ : List Fate). x) >>= f) s w ≡ f a s' w') (sym c.run) refl
        ∙ k.run;
  }

  pub lift-Comes :
      {A : Type 0} (f : S → Result A) {a : A} {s : S} {w : List Fate}
      → f s ≡ ok a
      → Comes (lift f) s w (done a s w)
  lift-Comes {A} f {a = a} {s = s} {w = w} e = record {
    run = unfold lift in subst (λ x. lift (λ (_ : S). x) s w ≡ done a s w) (sym e) refl;
  }

  pub attempt-Comes :
      {A : Type 0} {m : Prog S A} {a : A} {s s' : S} {w w' : List Fate}
      → Comes m s w (done a s' w')
      → Comes (attempt m) s w (done (ok a) s' w')
  unfolding attempt
  attempt-Comes {A} {a = a} {s = s} {s' = s'} {w = w} {w' = w'} c = record {
    run =
        subst (λ x. attempt (λ (_ : S) (_ : List Fate). x) s w ≡ done (ok a) s' w') (sym c.run)
          refl;
  }

  pub pure-Comes : {A : Type 0} (a : A) {s : S} {w : List Fate} → Comes (pure a) s w (done a s w)
  unfolding pure
  pure-Comes a = record { run = refl }

  pub modify-Comes : (f : S → S) {s : S} {w : List Fate} → Comes (modify f) s w (done tt (f s) w)
  unfolding modify
  modify-Comes f = record { run = refl }

  pub act_half-Comes :
      (e : String) (f g : S → S) {s : S} → Comes (act_half e f g) s [] (done tt (f s) [])
  unfolding act_half
  act_half-Comes e f g = record { run = refl }

pub zoom-Comes :
    {T S A : Type 0} (get : T → S) (put : T → S → T) {m : Prog S A} {a : A} (t : T) {s' : S}
    {w w' : List Fate}
    → Comes m (get t) w (done a s' w')
    → Comes (zoom get put m) t w (done a (put t s') w')
unfolding zoom
zoom-Comes {T} {S} {A} get put {a = a} t {s' = s'} {w = w} {w' = w'} c = record {
  run =
      subst (λ x. zoom get put (λ (_ : S) (_ : List Fate). x) t w ≡ done a (put t s') w')
        (sym c.run) refl;
}

pub query-Comes :
    {S A : Type 0} (e : String) (f : S → Result A) {a : A} {s : S}
    → f s ≡ ok a
    → Comes (query e f) s [] (done a s [])
query-Comes {S} {A} e f {a = a} {s = s} h = record {
  run = unfold query in subst (λ x. query e (λ (_ : S). x) s [] ≡ done a s []) (sym h) refl;
}
