-- ===== src/Tests/UnlockTests.antt =====
-- ds-unlock/src/main.rs on small inputs.
use deathstr0ke.Base.{ℕ, ◌≡◌, ◌⊎◌, refl, true, false, List, [], ◌∷◌, none, ok, arith}
use deathstr0ke.Text.{Text, codes, text_eq, as_bytes}
use mathlib.Core.List.{flat_map}
use deathstr0ke.Files.{missing, text}
use deathstr0ke.Effects.{Fate, works, fails, done}
use deathstr0ke.Effects.Laws.{Ends}
use deathstr0ke.Core.{test_mode}
use deathstr0ke.Core.Policy.{default_policy, config_text}
use deathstr0ke.Core.Verifier.{serialize, verify}
use deathstr0ke.Unlock.State.{Boot, Frozen, count_text, verify_against_baked}
use deathstr0ke.Unlock.State.Counter.{Agrees, read_count-count_text, verify_against_baked_sound}
use deathstr0ke.Unlock.Prompts.{Console, secret_of_round}
use deathstr0ke.Unlock.Loop.{Session, prompt_loop}
use deathstr0ke.Unlock.Loop.Exhaustion.{AllWrong, counted, wiped, prompt_loop_wipes}
use deathstr0ke.Unlock.Loop.Verdict.{Returned, Stopped, prompt_loop_verdict}
use deathstr0ke.Unlock.Start.{wants_self_test, run}
use deathstr0ke.Unlock.Start.Guards.{Cleared, Tested, run_needs_clearance}
use deathstr0ke.Tests.Fixtures.{default_policy-IsValid, toy_crypto, release, sample_hash}

-- The console where the same secret is typed in every round.
abbrev typing : Text → Console
typing secret = record {
  process = release;
  plymouth_active = λ i. false;
  plymouth_answer = λ i. none;
  terminal_answer = λ i. ok secret;
  opens = λ s. text_eq s (codes "daily");
}

abbrev session : Text → Session
session secret = record {
  crypto = toy_crypto;
  console = typing secret;
  device = codes "/dev/sda2";
  map = codes "cryptroot";
  policy = default_policy;
  duress = sample_hash;
  daily_slot = 0;
  recovery_slot = 1;
}

abbrev records : Frozen
records = record {
  duress_hash = text (serialize sample_hash);
  config = text (config_text default_policy);
  daily_slot = text (codes "0\n");
  recovery_slot = text (codes "1\n");
}

abbrev booted : ℕ → Boot
booted n = record {
  esp_present = true;
  armed = text [];
  live = records;
  baked = records;
  counter = text (count_text n);
  journal = missing;
  mapping_open = false;
  erase_runs = [];
}

wrong_each_time : AllWrong (session (codes "guess"))
wrong_each_time i = (codes "guess", asked, refused, refl)
  where
    asked : secret_of_round (typing (codes "guess")) i ≡ ok (codes "guess")
    asked = unfold secret_of_round test_mode in refl

    refused : verify toy_crypto sample_hash (as_bytes (codes "guess")) ≡ ok false
    refused = unfold verify as_bytes flat_map in refl

prompt_loop_wipes_example :
    prompt_loop (session (codes "guess")) 5 0 (booted 3) []
    ≡ done 2 (wiped (session (codes "guess")) (counted (session (codes "guess")) 5 (booted 3))) []
prompt_loop_wipes_example =
    prompt_loop_wipes (session (codes "guess")) 3 (booted 3) default_policy-IsValid wrong_each_time
      (read_count-count_text 3 (ground arith)) (ground arith)

-- The counter's reset fails.
abbrev bad_disk : List Fate
bad_disk = works ∷ works ∷ fails ∷ []

prompt_loop_verdict_example :
    Ends
      (Returned (session (codes "daily")) [])
      (Stopped (session (codes "daily")) [])
      (prompt_loop (session (codes "daily")) 5 0 (booted 3) bad_disk)
prompt_loop_verdict_example =
    prompt_loop_verdict (session (codes "daily")) 5 0 (booted 3) bad_disk refl

verify_against_baked_sound_example :
    Agrees records.duress_hash records.duress_hash
    × Agrees records.config records.config
    × Agrees records.daily_slot records.daily_slot
    × Agrees records.recovery_slot records.recovery_slot
verify_against_baked_sound_example = verify_against_baked_sound (booted 0) {u = tt} passed
  where
    passed : verify_against_baked (booted 0) ≡ ok tt
    passed = unfold verify_against_baked serialize config_text in refl

abbrev arguments : List Text
arguments = codes "--device" ∷ codes "/dev/sda2" ∷ []

run_needs_clearance_example :
    Ends
      (λ _ t.
        Tested arguments (booted 0) t ⊎ ((wants_self_test arguments ≡ false) × Cleared (booted 0)))
      (λ t. (t ≡ booted 0) ⊎ ((wants_self_test arguments ≡ false) × Cleared (booted 0)))
      (run toy_crypto (typing (codes "daily")) (ok 0) arguments (booted 0) [])
run_needs_clearance_example =
    run_needs_clearance toy_crypto (typing (codes "daily")) (ok 0) arguments (booted 0) []
