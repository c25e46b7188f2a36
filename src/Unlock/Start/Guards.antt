-- ===== src/Unlock/Start/Guards.antt =====
-- What must hold of the armed state before any secret is asked for.
use deathstr0ke.Base.{
  ℕ, Bool, Result, ◌≡◌, ◌≢◌, refl, arith, true, false, ◌==◌, List, ok, ◌⊎◌, inl, inr,
}
use deathstr0ke.Text.{Text}
use deathstr0ke.Files.{is_file}
use deathstr0ke.Effects.{Fate}
use deathstr0ke.Effects.Laws.{
  Triple, Ends, from-Triple, loosen-Triple, fact-Triple, lift-Triple, to-Triple,
}
use deathstr0ke.Effects.Checks.{check-Triple, passed, passed_not}
use deathstr0ke.Core.Policy.{Policy}
use deathstr0ke.Core.Verifier.{Crypto, DuressHash}
use deathstr0ke.Unlock.State.{Boot, read_cfg, load_duress, read_slot}
use deathstr0ke.Unlock.State.Counter.{Agrees, verify_against_baked_sound}
use deathstr0ke.Unlock.Prompts.{Console}
use deathstr0ke.Unlock.Start.{start, wants_self_test, start_or_test, run}

-- The marks and the records.
abbrev WithRecords : Boot → Type 0
WithRecords s =
    (s.esp_present ≡ true)
    × (is_file s.armed ≡ true)
    × (Agrees s.baked.duress_hash s.live.duress_hash
        × Agrees s.baked.config s.live.config
        × Agrees s.baked.daily_slot s.live.daily_slot
        × Agrees s.baked.recovery_slot s.live.recovery_slot)

distinct_of_passed : (n m : ℕ) → (n == m) ≡ false → n ≢ m
distinct_of_passed n m h e = ground arith

-- What the checks of `run` find out, in their order.
pub record Cleared (s : Boot) : Type 0 where
  pub policy : Policy
  pub duress : DuressHash
  pub daily_slot : ℕ
  pub recovery_slot : ℕ
  pub armed : WithRecords s
  pub policy_read : read_cfg s ≡ ok policy
  pub duress_read : load_duress s ≡ ok duress
  pub daily_read : read_slot s.live.daily_slot ≡ ok daily_slot
  pub recovery_read : read_slot s.live.recovery_slot ≡ ok recovery_slot
  pub distinct : daily_slot ≢ recovery_slot

module _ (crypto : Crypto) (console : Console) (args : List Text) (s₀ : Boot) where
  abbrev Held : Boot → Type 0
  Held s = (s ≡ s₀) ⊎ Cleared s₀

  start-Triple : Triple (λ s. s ≡ s₀) (start crypto console args) (λ _ _. Cleared s₀) Held
  unfolding start
  start-Triple = check-Triple _ (inl refl) λ device _. check-Triple _ (inl refl) λ _ present.
      check-Triple _ (inl refl) λ _ marked. check-Triple _ (inl refl) λ _ agrees.
        check-Triple _ (inl refl) λ policy policy_read.
          check-Triple _ (inl refl) λ duress duress_read.
            check-Triple _ (inl refl) λ daily daily_read.
              check-Triple _ (inl refl) λ recovery recovery_read.
                check-Triple _ (inl refl) λ _ distinct. check-Triple _ (inl refl) λ interrupted _.
                  let cleared : Cleared s₀ = record {
                    policy = policy;
                    duress = duress;
                    daily_slot = daily;
                    recovery_slot = recovery;
                    armed = (
                      passed_not s₀.esp_present _ present,
                      passed_not (is_file s₀.armed) _ marked,
                      verify_against_baked_sound s₀ agrees,
                    );
                    policy_read = policy_read;
                    duress_read = duress_read;
                    daily_read = daily_read;
                    recovery_read = recovery_read;
                    distinct =
                        distinct_of_passed daily recovery (passed (daily == recovery) _ distinct);
                  } in
                  from-Triple (λ s h. tt) (loosen-Triple (λ s h. inr h) (fact-Triple _ cleared))

-- The end of a self-test.
abbrev pub Tested : List Text → Boot → Boot → Type 0
Tested args s t = (wants_self_test args ≡ true) × (t ≡ s)

run-Triple :
    (crypto : Crypto) (console : Console) (self_test : Result ℕ) (args : List Text) (s₀ : Boot)
    (b : Bool)
    → wants_self_test args ≡ b
    → Triple
        (λ s. s ≡ s₀)
        (start_or_test crypto console self_test args b)
        (λ _ t. Tested args s₀ t ⊎ ((wants_self_test args ≡ false) × Cleared s₀))
        (λ t. (t ≡ s₀) ⊎ ((wants_self_test args ≡ false) × Cleared s₀))
unfolding start_or_test
run-Triple crypto console self_test args s₀ true e =
    lift-Triple (λ s a h k. inl (e, h)) (λ s h. inl h)
run-Triple crypto console self_test args s₀ false e =
    to-Triple (λ _ t h. inr (e, h))
      (loosen-Triple (λ s h. widened s h) (start-Triple crypto console args s₀))
  where
    widened :
        (s : Boot)
        → (s ≡ s₀) ⊎ Cleared s₀
        → (s ≡ s₀) ⊎ ((wants_self_test args ≡ false) × Cleared s₀)
    widened s (inl h) = inl h
    widened s (inr c) = inr (e, c)

-- The program returns, or changes anything of the boot state, only if the ESP state is there and marked
-- armed, each frozen record agrees with the one on the ESP, the policy, the verifier and both slots can
-- be read from them, and the two slots differ. The one exception is a self-test, which is run only where
-- the arguments ask for it, and returns with everything as it was; the failure of any check leaves
-- everything as it was, too.
pub run_needs_clearance :
    (crypto : Crypto) (console : Console) (self_test : Result ℕ) (args : List Text) (s : Boot)
    (w : List Fate)
    → Ends
        (λ _ t. Tested args s t ⊎ ((wants_self_test args ≡ false) × Cleared s))
        (λ t. (t ≡ s) ⊎ ((wants_self_test args ≡ false) × Cleared s))
        (run crypto console self_test args s w)
unfolding run
run_needs_clearance crypto console self_test args s w =
    (run-Triple crypto console self_test args s _ refl).run s w refl
