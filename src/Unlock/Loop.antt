-- ===== src/Unlock/Loop.antt =====
-- The prompt loop of `run` in ds-unlock/src/main.rs.
pub mod Verdict
pub mod Exhaustion
use deathstr0ke.Base.{
  ℕ, zero, suc, ◌+◌, Bool, true, false, leb, if◌then◌else◌, Result, ok, err, context, String,
}
use deathstr0ke.Text.{Text, as_bytes}
use deathstr0ke.Effects.{Prog, ◌>>=◌, ◌>>◌, pure, fail, lift, query}
use deathstr0ke.Core.Policy.{Policy}
use deathstr0ke.Core.Verifier.{DuressHash, Crypto, verify}
use deathstr0ke.Unlock.State.{Boot, bump_count, reset_count, do_wipe}
use deathstr0ke.Unlock.Prompts.{Console, prompt_secret, luks_open}

-- The arguments of `run` and what it has read before the loop.
pub record Session : Type 0 where
  pub crypto : Crypto
  pub console : Console
  pub device : Text
  pub map : Text
  pub policy : Policy
  pub duress : DuressHash
  pub daily_slot : ℕ
  pub recovery_slot : ℕ

module _ (x : Session) where
  wipe : Prog Boot ℕ
  unfolding do_wipe
  wipe = do_wipe x.device x.map x.daily_slot x.recovery_slot

  -- Behind a wrong secret: the next round waits unless the wipe line is reached.
  escalate : Prog Boot ℕ → ℕ → Prog Boot ℕ
  unfolding wipe
  escalate next n = if leb x.policy.wipe_at n then wipe else next

  unlocked : Prog Boot ℕ
  unfolding reset_count
  unlocked = do reset_count; pure 0

  wrong : Prog Boot ℕ → Prog Boot ℕ
  unfolding bump_count escalate
  wrong next = do n ← bump_count; escalate next n

  judge : Prog Boot ℕ → Bool → Prog Boot ℕ
  unfolding unlocked wrong
  judge next true = unlocked
  judge next false = wrong next

  try_open : Prog Boot ℕ → Text → Bool → Prog Boot ℕ
  unfolding wipe luks_open judge
  try_open next secret true = wipe
  try_open next secret false = do opened ← luks_open x.console secret; judge next opened

  -- One round, and the rounds behind it.
  round : Prog Boot ℕ → ℕ → Prog Boot ℕ
  unfolding prompt_secret verify try_open as_bytes
  round next i = do
    secret ← prompt_secret x.console i
    is_duress ←
        lift (λ s. context "verify duress code" (verify x.crypto x.duress (as_bytes secret)))
    try_open next secret is_duress

  -- `for _ in 0..max_prompts`: the rounds that are left, and the number of this one.
  unfoldable pub prompt_loop : ℕ → ℕ → Prog Boot ℕ
  unfolding round
  prompt_loop zero i = fail "too many attempts"
  prompt_loop (suc left) i = round (prompt_loop left (i + 1)) i
