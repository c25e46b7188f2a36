-- ===== src/Dsctl/Recovery/Matching.antt =====
-- What the questions that `enroll_recovery` asks of the device tell.
use deathstr0ke.Base.{
  ℕ, ◌≡◌, ◌≢◌, refl, sym, ap, ◌∙◌, subst, inl, inr, Bool, true, not, ◌&&◌, List, [], ◌∷◌, Result,
  ok, if◌then◌else◌, String, bail_if, arith, ==_refl, Bool-cases,
}
use deathstr0ke.Text.{Text}
use deathstr0ke.Text.Laws.{text_eq_iff}
use deathstr0ke.Effects.Laws.{
  Triple, >>=-Triple, pure-Triple, query-Triple, from-Triple, given-Triple,
}
use deathstr0ke.Effects.Checks.{check-Triple, passed_not}
use deathstr0ke.Luks.{contains}
use deathstr0ke.Dsctl.Registry.{difference}
use deathstr0ke.Dsctl.Registry.Sets.{contains-difference}
use deathstr0ke.Dsctl.Machine.{is_empty}
use deathstr0ke.Dsctl.Recovery.{
  Keyring, Records, only, same_slots, slots_of, listed, list_keyslots, match_slots,
  matching_keyslots,
}

pub only_is : (e : String) (ns : List ℕ) {n : ℕ} → only e ns ≡ ok n → ns ≡ n ∷ []
unfolding only
only_is e [] h = cc
only_is e (n ∷ []) h = ap (λ x. x ∷ []) (same h)
  where
    same : {a b : ℕ} → ◌≡◌ {A = Result ℕ} (ok a) (ok b) → a ≡ b
    same k = cc
only_is e (n ∷ m ∷ ns) h = cc

-- The slots of a list that a key file opens.
abbrev pub opened : (k : Keyring) → k.Device → Text → List ℕ → List ℕ
opened k d keyfile [] = []
opened k d keyfile (n ∷ ns) =
    let rest = opened k d keyfile ns in if k.opens d keyfile n then n ∷ rest else rest

opened-contains :
    (k : Keyring) (d : k.Device) (keyfile : Text) (ns : List ℕ) (n : ℕ)
    → contains (opened k d keyfile ns) n ≡ true
    → contains ns n ≡ true
unfolding contains
opened-contains k d keyfile [] n h = h
opened-contains k d keyfile (m ∷ ns) n h = elim (Bool-cases (k.opens d keyfile m)) [
  | inl e ↦ ground (arith, opened-contains k d keyfile ns n)
  | inr e ↦ ground (arith, opened-contains k d keyfile ns n)
]

listed_is : (ns : List ℕ) {a : List ℕ} → listed ns ≡ ok a → a ≡ ns
unfolding listed is_empty
listed_is [] e = cc
listed_is (n ∷ ns) e = same e
  where
    same : {a b : List ℕ} → ◌≡◌ {A = Result (List ℕ)} (ok a) (ok b) → b ≡ a
    same e = cc

listed_once : (n : ℕ) → contains (n ∷ []) n ≡ true
unfolding contains
listed_once n = ground (arith, ==_refl n)

-- A slot that a key opened before the other one was added is not the other one.
pub differ :
    (k : Keyring) (d : k.Device) (keyfile : Text) (before after : List ℕ) {daily recovery : ℕ}
    → opened k d keyfile before ≡ daily ∷ []
    → difference after before ≡ recovery ∷ []
    → daily ≢ recovery
differ k d keyfile before after {daily} {recovery} opens added same =
    apart
      (opened-contains k d keyfile before daily
        (ap (λ ns. contains ns daily) opens ∙ listed_once daily))
      (sym (contains-difference after before recovery)
        ∙ ap (λ ns. contains ns recovery) added
        ∙ listed_once recovery)
  where
    apart :
        contains before daily ≡ true
        → (contains after recovery && not (contains before recovery)) ≡ true
        → ⊥
    apart h g = clash (contains after recovery) (subst (λ n. contains before n ≡ true) same h) g
      where
        clash : (a : Bool) {b : Bool} → b ≡ true → (a && not b) ≡ true → ⊥
        clash a h g = ground arith

pub confirmed :
    (found : List ℕ) (n : ℕ) (e : String) {u : Unit {0}}
    → bail_if (not (same_slots found n)) e ≡ ok u
    → found ≡ n ∷ []
confirmed found n e {u} h =
    (text_eq_iff found (n ∷ [])).0
      (unfold same_slots in passed_not (same_slots found n) e {u = u} h)

module _ {k : Keyring} where
  match_slots-Triple :
      (keyfile : Text) (ns : List ℕ) (s₀ : Records k) {R : Records k → Type 0}
      → R s₀
      → Triple
          (λ s. s ≡ s₀)
          (match_slots keyfile ns)
          (λ r s. (s ≡ s₀) × (r ≡ opened k s₀.device keyfile ns))
          R
  unfolding match_slots
  match_slots-Triple keyfile [] s₀ stay = pure-Triple [] (λ s h. (h, refl))
  match_slots-Triple keyfile (n ∷ ns) s₀ {R = R} stay =
      >>=-Triple (λ b s. (s ≡ s₀) × (b ≡ k.opens s₀.device keyfile n))
        (query-Triple _ (λ s a h e. (h, found s a h e)) (λ s h. subst R (sym h) stay))
        λ b.
          given-Triple (λ s h. h.1)
            λ is.
              from-Triple (λ s h. h.0)
                (>>=-Triple (λ r s. (s ≡ s₀) × (r ≡ opened k s₀.device keyfile ns))
                  (match_slots-Triple keyfile ns s₀ stay)
                  λ r. pure-Triple _ (λ s h. (
                    h.0,
                    ap (λ x. if b then n ∷ x else x) h.1
                        ∙ ap
                            (λ c.
                              if c
                              then n ∷ opened k s₀.device keyfile ns
                              else opened k s₀.device keyfile ns)
                            is,
                  )))
    where
      found :
          (s : Records k) (a : Bool)
          → s ≡ s₀
          → ◌≡◌ {A = Result Bool} (ok (k.opens s.device keyfile n)) (ok a)
          → a ≡ k.opens s₀.device keyfile n
      found s a h e = same e ∙ ap (λ (t : Records k). k.opens t.device keyfile n) h
        where
          same : {a b : Bool} → ◌≡◌ {A = Result Bool} (ok a) (ok b) → b ≡ a
          same e = cc

  pub list_keyslots-Triple :
      (s₀ : Records k) {R : Records k → Type 0}
      → R s₀
      → Triple (λ s. s ≡ s₀) list_keyslots (λ r s. (s ≡ s₀) × (r ≡ slots_of k s₀.device)) R
  unfolding list_keyslots
  list_keyslots-Triple s₀ {R = R} stay =
      query-Triple _
        (λ s a h e.
          (h, listed_is (slots_of k s.device) e ∙ ap (λ (t : Records k). slots_of k t.device) h))
        (λ s h. subst R (sym h) stay)

  pub matching_keyslots-Triple :
      (is_file : Text → Bool) (keyfile : Text) (s₀ : Records k) {R : Records k → Type 0}
      → R s₀
      → Triple
          (λ s. s ≡ s₀)
          (matching_keyslots is_file keyfile)
          (λ r s. (s ≡ s₀) × (r ≡ opened k s₀.device keyfile (slots_of k s₀.device)))
          R
  unfolding matching_keyslots
  matching_keyslots-Triple is_file keyfile s₀ {R = R} stay = check-Triple _ stay λ _ _.
      >>=-Triple (λ r s. (s ≡ s₀) × (r ≡ slots_of k s₀.device)) (list_keyslots-Triple s₀ stay)
        λ slots.
          given-Triple (λ s h. h.1)
            λ is.
              from-Triple (λ s h. h.0)
                (subst
                  (λ ns.
                    Triple (λ s. s ≡ s₀) (match_slots keyfile slots)
                      (λ r s. (s ≡ s₀) × (r ≡ opened k s₀.device keyfile ns)) R)
                  is (match_slots-Triple keyfile slots s₀ stay))
