-- ===== src/Unlock/Prompts.antt =====
-- `prompt_secret` and `luks_open` of ds-unlock/src/main.rs. The answers at the console and the
-- decision of `cryptsetup open` come from outside.
use deathstr0ke.Base.{
  ℕ, Bool, true, false, ◌||◌, Option, none, some, Result, ok, ◌==◌, if◌then◌else◌,
}
use deathstr0ke.Text.{Text, trim_end_matches}
use deathstr0ke.Effects.{Prog, ◌>>◌, pure, act, query}
use deathstr0ke.Core.{Process, test_mode}
use deathstr0ke.Unlock.State.{Boot}

-- The round of the loop is the argument of each answer.
pub record Console : Type 0 where
  pub process : Process
  pub plymouth_active : ℕ → Bool
  pub plymouth_answer : ℕ → Option Text
  pub terminal_answer : ℕ → Result Text
  pub opens : Text → Bool

is_newline : ℕ → Bool
is_newline c = c == b'\n' || c == b'\r'

plymouth_or_terminal : Option Text → Result Text → Result Text
unfolding trim_end_matches is_newline
plymouth_or_terminal (some s) terminal = ok (trim_end_matches is_newline s)
plymouth_or_terminal none terminal = terminal

scripted_or_asked : Option Text → Result Text → Result Text
scripted_or_asked (some s) asked = ok s
scripted_or_asked none asked = asked

module _ (k : Console) where
  -- A scripted secret is taken in test builds only.
  unfoldable pub secret_of_round : ℕ → Result Text
  unfolding plymouth_or_terminal scripted_or_asked test_mode
  secret_of_round i =
      let asked =
        plymouth_or_terminal (if k.plymouth_active i then k.plymouth_answer i else none)
          (k.terminal_answer i) in
      if test_mode k.process then scripted_or_asked (k.process.var "DS_SECRET") asked else asked

  unfoldable pub prompt_secret : ℕ → Prog Boot Text
  unfolding secret_of_round
  prompt_secret i = query "read passphrase" (λ s. secret_of_round i)

  -- Success creates the mapping.
  run_open : Bool → Prog Boot Bool
  run_open true = do
    act "wait for cryptsetup open" (λ (s : Boot). record s { mapping_open = true })
    pure true
  run_open false = query "spawn cryptsetup open" (λ s. ok false)

  unfoldable pub luks_open : Text → Prog Boot Bool
  unfolding run_open
  luks_open secret = run_open (k.opens secret)
