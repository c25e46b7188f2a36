-- ===== src/Dsctl/Arm/Clearance.antt =====
-- What `arm` demands before it changes anything.
use deathstr0ke.Base.{
  ℕ, ◌≡◌, refl, ap, subst, ◌⊎◌, inl, inr, Bool, true, false, not, ◌||◌, ◌&&◌, List, [], ◌∷◌, Result,
  ok, bail_if, String, arith,
}
use deathstr0ke.Text.{Text}
use deathstr0ke.Files.{File, text, read_to_string}
use deathstr0ke.Effects.{Fate}
use deathstr0ke.Effects.Laws.{
  Triple, Ends, >>=-Triple, pure-Triple, to-Triple, from-Triple, loosen-Triple, given-Triple,
  act_half-Triple,
}
use deathstr0ke.Effects.Checks.{check-Triple, passed_not}
use deathstr0ke.Luks.{contains, insert}
use deathstr0ke.Luks.Dump.{insert-contains}
use deathstr0ke.Dsctl.System.{Mkinitcpio, System}
use deathstr0ke.Dsctl.System.Steps.{query-At, some-Triple}
use deathstr0ke.Dsctl.Registry.{read_known_slots, known_text, write_known_slots, difference}
use deathstr0ke.Dsctl.Registry.Sets.{contains-difference}
use deathstr0ke.Dsctl.Machine.{Machine, Ready, is_empty}
use deathstr0ke.Dsctl.Machine.Sound.{Clear, check_ready-Clear}
use deathstr0ke.Dsctl.Arm.{with_baseline, complete, audit, arm}
use deathstr0ke.Dsctl.Arm.Outcome.{Marked, by_markers-Triple}

-- A slot that the registry holds, or one of the two recorded ones.
abbrev pub Known : Ready → File → ℕ → Type 0
Known ready registry n =
    (contains (read_known_slots registry) n ≡ true) ⊎ (n ≡ ready.daily) ⊎ (n ≡ ready.recovery)

-- A machine that passed the checks, and whose active slots are all known.
pub record Cleared (host : Machine) (registry : File) (ready : Ready) : Type 0 where
  pub clear : Clear host ready
  pub audited : (n : ℕ) → contains ready.slots n ≡ true → Known ready registry n

AllKnown : Ready → File → List ℕ → Type 0
AllKnown ready registry known = (n : ℕ) → contains known n ≡ true → Known ready registry n

baseline-Known :
    (ready : Ready) (registry : File)
    → AllKnown ready registry (with_baseline ready (read_known_slots registry))
unfolding with_baseline AllKnown
baseline-Known ready registry n h = ground (
  arith,
  insert-contains ready.recovery n (insert ready.daily (read_known_slots registry)),
  insert-contains ready.daily n (read_known_slots registry),
)

none_left :
    (slots known : List ℕ) (e : String) {u : Unit {0}}
    → bail_if (not (is_empty (difference slots known))) e ≡ ok u
    → (n : ℕ) → contains slots n ≡ true
    → contains known n ≡ true
unfolding is_empty
none_left slots known e {u} h n a =
    by_difference (difference slots known) (contains-difference slots known n)
      (passed_not (is_empty (difference slots known)) e {u = u} h)
  where
    by_difference :
        (d : List ℕ)
        → contains d n ≡ (contains slots n && not (contains known n))
        → is_empty d ≡ true
        → contains known n ≡ true
    by_difference [] c k = unfold contains in ground arith
    by_difference (x ∷ xs) c k = cc

module _ {m : Mkinitcpio} where
  abbrev pub with_registry : System m → File → System m
  with_registry s f = record s { known_slots = f }

  -- Nothing but the registry is another one.
  abbrev pub Untouched : System m → System m → Type 0
  Untouched s t = (f : File) × (t ≡ with_registry s f)

  abbrev Listed : Ready → System m → List ℕ → File → System m → Type 0
  Listed ready s known f t = (t ≡ with_registry s f) × AllKnown ready s.known_slots known

  abbrev Audited : Ready → System m → List ℕ → System m → Type 0
  Audited ready s known t = (f : File) × Listed ready s known f t

  complete-Triple :
      (ready : Ready) (s₀ : System m) (b : Bool)
      → Triple
          (λ s. s ≡ s₀)
          (complete ready (read_known_slots s₀.known_slots) b)
          (Audited ready s₀)
          (Untouched s₀)
  unfolding complete write_known_slots
  complete-Triple ready s₀ true =
      let written : File =
        text (known_text (with_baseline ready (read_known_slots s₀.known_slots))) in
      >>=-Triple (λ _ t. t ≡ with_registry s₀ written)
        (query-At _ _ (s₀.known_slots, refl)
          λ _.
            act_half-Triple _ _ _ (λ s h. ap (λ t. with_registry t written) h)
              (λ s h. (s₀.known_slots, h)) (λ s h. (written, ap (λ t. with_registry t written) h)))
        λ _. pure-Triple _ (λ s h. (written, (h, baseline-Known ready s₀.known_slots)))
  complete-Triple ready s₀ false =
      pure-Triple _ (λ s h. (s₀.known_slots, (h, unfold AllKnown in λ n k. inl k)))

  audit-Triple :
      (ready : Ready) (s₀ : System m)
      → Triple (λ s. s ≡ s₀) (audit ready) (Audited ready s₀) (Untouched s₀)
  unfolding audit
  audit-Triple ready s₀ =
      check-Triple _ (s₀.known_slots, refl)
        λ known read.
          subst
            (λ k.
              Triple (λ s. s ≡ s₀)
                (complete ready k (not (contains k ready.daily) || not (contains k ready.recovery)))
                (Audited ready s₀) (Untouched s₀))
            (same read) (complete-Triple ready s₀ _)
    where
      same : {a b : List ℕ} → ◌≡◌ {A = Result (List ℕ)} (ok a) (ok b) → a ≡ b
      same e = cc

  arm-Triple :
      (host : Machine) (s₀ : System m)
      → Triple
          (λ s. s ≡ s₀)
          (arm host)
          (λ _ t.
            (ready : Ready) × (content : Text) × (registry : File) × Cleared host s₀.known_slots
              ready
            × (read_to_string "read system-auth" s₀.system_auth ≡ ok content)
            × Marked ready content (with_registry s₀ registry) t)
          (λ t. Untouched s₀ t ⊎ ((ready : Ready) × Cleared host s₀.known_slots ready))
  unfolding arm AllKnown
  arm-Triple host s₀ = check-Triple _ (inl (s₀.known_slots, refl)) λ ready checked.
      >>=-Triple (Audited ready s₀) (loosen-Triple (λ s h. inl h) (audit-Triple ready s₀)) λ known.
        some-Triple {P = Listed ready s₀ known} λ registry.
          given-Triple (λ s h. h.1)
            λ all_known.
              from-Triple (λ s h. h.0)
                (check-Triple _ (inl (registry, refl)) λ _ none_unknown.
                  let cleared : Cleared host s₀.known_slots ready = record {
                    clear = check_ready-Clear host checked;
                    audited = λ n a. all_known n (none_left ready.slots known _ none_unknown n a);
                  } in
                  check-Triple _ (inl (registry, refl)) λ content read.
                    check-Triple _ (inl (registry, refl)) λ l local_is.
                      check-Triple _ (inl (registry, refl)) λ e esp_is.
                        to-Triple (λ _ t h. (ready, content, registry, cleared, read, h))
                          (loosen-Triple (λ s h. inr (ready, cleared))
                            (by_markers-Triple ready content (with_registry s₀ registry) _ l e refl
                              (same local_is) (same esp_is))))
    where
      same : {a b : Bool} → ◌≡◌ {A = Result Bool} (ok a) (ok b) → a ≡ b
      same e = cc

-- `arm` changes nothing but the registry unless the machine is root's and marked disposable, the
-- verifier and the policy are valid, the two recorded slots differ and are active, and every other
-- active slot stood in the registry before. Where it returns, all that held too, and either PAM and
-- both markers were there already and nothing was done, or none of them was and everything that the
-- transaction commits is in place.
pub arm_arms :
    {m : Mkinitcpio} (host : Machine) (s : System m) (w : List Fate)
    → Ends
        (λ _ t.
          (ready : Ready) × (content : Text) × (registry : File) × Cleared host s.known_slots ready
          × (read_to_string "read system-auth" s.system_auth ≡ ok content)
          × Marked ready content (with_registry s registry) t)
        (λ t. Untouched s t ⊎ ((ready : Ready) × Cleared host s.known_slots ready))
        (arm host s w)
arm_arms host s w = (arm-Triple host s).run s w refl
