-- ===== src/Unlock/Start.antt =====
-- `run` of ds-unlock/src/main.rs up to its loop: the self-test, the checks of the armed state, the
-- interrupted transaction, and a counter that stands at the wipe line already.
pub mod Guards
use deathstr0ke.Base.{
  ℕ, Bool, true, false, not, ◌==◌, leb, if◌then◌else◌, List, Option, none, some, Result, ok, err,
  expect_some, bail_if, String, any,
}
use deathstr0ke.Text.{Text, codes, text_eq}
use deathstr0ke.Files.{is_file}
use deathstr0ke.Effects.{Prog, ◌>>=◌, ◌>>◌, pure, lift}
use deathstr0ke.Core.Policy.{Policy}
use deathstr0ke.Core.Verifier.{DuressHash, Crypto}
use deathstr0ke.Erase.Arguments.{flag}
use deathstr0ke.Unlock.State.{
  Boot, verify_against_baked, read_cfg, load_duress, read_slot, read_count, do_wipe, resume_wipe,
}
use deathstr0ke.Unlock.Prompts.{Console}
use deathstr0ke.Unlock.Loop.{Session, prompt_loop}

abbrev or_default : Text → Option Text → Text
or_default d none = d
or_default d (some t) = t

-- Behind the checks: the wipe line first, then the prompts.
start_prompts : Session → Bool → Prog Boot ℕ
unfolding do_wipe prompt_loop
start_prompts x true = do_wipe x.device x.map x.daily_slot x.recovery_slot
start_prompts x false = prompt_loop x x.policy.max_prompts 0

count_first : Session → Prog Boot ℕ
unfolding start_prompts read_count
count_first x = do
  n ← lift (λ (s : Boot). read_count s.counter)
  start_prompts x (leb x.policy.wipe_at n)

resume_first : Session → Bool → Prog Boot ℕ
unfolding resume_wipe count_first
resume_first x true = resume_wipe x.device x.daily_slot x.recovery_slot x.map
resume_first x false = count_first x

unfoldable start : Crypto → Console → List Text → Prog Boot ℕ
unfolding verify_against_baked read_cfg load_duress read_slot resume_first flag
start crypto console args = do
  device ← lift (λ s. expect_some "--device <luks-dev> required" (flag args (codes "--device")))
  lift (λ (s : Boot). bail_if (not s.esp_present) "armed ESP state directory missing")
  lift (λ (s : Boot). bail_if (not (is_file s.armed)) "armed ESP marker missing")
  lift verify_against_baked
  policy ← lift read_cfg
  duress ← lift load_duress
  daily_slot ← lift (λ (s : Boot). read_slot s.live.daily_slot)
  recovery_slot ← lift (λ (s : Boot). read_slot s.live.recovery_slot)
  lift (λ s. bail_if (daily_slot == recovery_slot) "daily.slot and recovery.slot must be distinct")
  interrupted ← lift (λ (s : Boot). ok (is_file s.journal))
  resume_first
      (record {
        crypto = crypto;
        console = console;
        device = device;
        map = or_default (codes "cryptroot") (flag args (codes "--map-name"));
        policy = policy;
        duress = duress;
        daily_slot = daily_slot;
        recovery_slot = recovery_slot;
      })
      interrupted

unfoldable pub wants_self_test : List Text → Bool
wants_self_test args = any (λ a. text_eq a (codes "--self-test")) args

start_or_test : Crypto → Console → Result ℕ → List Text → Bool → Prog Boot ℕ
unfolding start
start_or_test crypto console self_test args true = lift (λ s. self_test)
start_or_test crypto console self_test args false = start crypto console args

-- `self_test` is what the self-test answers. It acts on a directory of its own in /tmp, and so on
-- nothing of the boot state.
unfoldable pub run : Crypto → Console → (self_test : Result ℕ) → List Text → Prog Boot ℕ
unfolding start_or_test wants_self_test
run crypto console self_test args =
    start_or_test crypto console self_test args (wants_self_test args)
