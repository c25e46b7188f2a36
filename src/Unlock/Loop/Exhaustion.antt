-- ===== src/Unlock/Loop/Exhaustion.antt =====
-- An attacker who keeps typing wrong secrets reaches the wipe line within one boot.
use deathstr0ke.Base.{
  ℕ, zero, suc, ◌+◌, ◌≤◌, ◌<◌, ◌≡◌, ◌∙◌, ap, arith, false, leb, [], ◌∷◌, ok, Bool-cases, inl, inr,
}
use native.Mathlib.Decide.{dec_le}
use deathstr0ke.Text.{Text, as_bytes}
use deathstr0ke.Files.{text}
use deathstr0ke.Effects.{Prog, done, ◌>>=◌, pure, lift, query, act_half}
use deathstr0ke.Core.Verifier.{verify}
use deathstr0ke.Core.Policy.Bounds.{IsValid}
use deathstr0ke.Text.Numbers.{u32_max}
use deathstr0ke.Unlock.State.{Boot, fire, read_count, count_text, bump_count, write_count}
use deathstr0ke.Unlock.State.Counter.{read_count-count_text}
use deathstr0ke.Unlock.Prompts.{secret_of_round, prompt_secret, luks_open}
use deathstr0ke.Unlock.Loop.{Session, escalate, wrong, judge, try_open, round, prompt_loop}

module _ (x : Session) where
  -- Every secret that is typed is neither the duress code nor a passphrase of the device.
  abbrev pub AllWrong : Type 0
  AllWrong =
      (i : ℕ)
      → (secret : Text) × (secret_of_round x.console i ≡ ok secret)
        × (verify x.crypto x.duress (as_bytes secret) ≡ ok false)
        × (x.console.opens secret ≡ false)

  abbrev pub counted : ℕ → Boot → Boot
  counted n s = record s { counter = text (count_text n) }

  abbrev pub wiped : Boot → Boot
  wiped s = record s {
    erase_runs = fire x.device x.daily_slot x.recovery_slot x.map ∷ s.erase_runs;
  }

  round_wrong :
      (next : Prog Boot ℕ) (i n : ℕ) (s : Boot)
      → AllWrong
      → read_count s.counter ≡ ok n
      → n < u32_max
      → round x next i s [] ≡ escalate x next (n + 1) (counted (n + 1) s) []
  unfolding round prompt_secret query lift ◌>>=◌ try_open luks_open judge wrong bump_count
      write_count act_half pure
  round_wrong next i n s all h small =
      let (secret, asked, not_duress, closed) = all i in
      rw (asked, not_duress, closed) (ground arith)

  escalate_wipes :
      (next : Prog Boot ℕ) (n : ℕ) (s : Boot)
      → x.policy.wipe_at ≤ n
      → escalate x next n s [] ≡ done 2 (wiped s) []
  unfolding escalate act_half ◌>>=◌ pure
  escalate_wipes next n s h = elim (Bool-cases (leb x.policy.wipe_at n)) [
    | inl reached ↦ rw reached
    | inr below ↦ absurd (ground arith)
  ]

  escalate_waits :
      (next : Prog Boot ℕ) (n : ℕ) (s : Boot)
      → n < x.policy.wipe_at
      → escalate x next n s [] ≡ next s []
  unfolding escalate
  escalate_waits next n s h = elim (Bool-cases (leb x.policy.wipe_at n)) [
    | inl reached ↦ absurd (ground arith)
    | inr below ↦ rw below
  ]

  prompt_loop_wipes_from :
      (left i n : ℕ) (s : Boot)
      → x.policy.wipe_at ≤ u32_max
      → AllWrong
      → read_count s.counter ≡ ok n
      → n < x.policy.wipe_at
      → x.policy.wipe_at ≤ n + left
      → prompt_loop x left i s [] ≡ done 2 (wiped (counted x.policy.wipe_at s)) []
  unfolding prompt_loop
  prompt_loop_wipes_from zero i n s fits all h below enough = absurd (omega arith)
  prompt_loop_wipes_from (suc left) i n s fits all h below enough =
      round_wrong (prompt_loop x left (i + 1)) i n s all h (omega arith)
      ∙ elim (dec_le x.policy.wipe_at (n + 1)) [
        | yes reached ↦
            let e : n + 1 ≡ x.policy.wipe_at = omega arith in
            escalate_wipes (prompt_loop x left (i + 1)) (n + 1) (counted (n + 1) s) reached
            ∙ ap (λ k. done 2 (wiped (counted k s)) []) e
        | no unreached ↦
            escalate_waits (prompt_loop x left (i + 1)) (n + 1) (counted (n + 1) s) (omega arith)
            ∙ prompt_loop_wipes_from left (i + 1) (n + 1) (counted (n + 1) s) fits all
                (read_count-count_text (n + 1) (omega arith)) (omega arith) (omega arith)
      ]

-- Under a valid policy, where every secret typed is wrong and no call fails, one boot's prompts are
-- enough to reach the wipe line from any counter below it: the loop ends with the erase of the daily
-- slot started once, the counter exactly at the line and the mapping as it was. It does not end with
-- "too many attempts".
pub prompt_loop_wipes :
    (x : Session) (n : ℕ) (s : Boot)
    → IsValid x.policy
    → AllWrong x
    → read_count s.counter ≡ ok n
    → n < x.policy.wipe_at
    → prompt_loop x x.policy.max_prompts 0 s [] ≡ done 2 (wiped x (counted x x.policy.wipe_at s)) []
prompt_loop_wipes x n s valid all h below =
    prompt_loop_wipes_from x x.policy.max_prompts 0 n s (omega arith) all h below (omega arith)
