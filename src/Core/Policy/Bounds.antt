-- ===== src/Core/Policy/Bounds.antt =====
-- Which policies are accepted.
use deathstr0ke.Base.{◌≤◌, ◌<◌, ◌≡◌, ◌↔◌, arith, ok, Result-cases, inl, inr}
use deathstr0ke.Text.{Text}
use deathstr0ke.Text.Lines.{lines}
use deathstr0ke.Core.Policy.{
  Policy, validate, parse, parse_lines, default_policy, max_wipe_at, max_lockout_delay_secs,
}

-- What the message of `validate` asks for.
pub record IsValid (p : Policy) : Type 0 where
  pub lockout_pos : 1 ≤ p.lockout_at
  pub lockout_before_wipe : p.lockout_at < p.wipe_at
  pub wipe_within_prompts : p.wipe_at ≤ p.max_prompts
  pub prompts_bounded : p.max_prompts ≤ max_wipe_at
  pub delay_bounded : p.lockout_delay ≤ max_lockout_delay_secs

validate_of_IsValid : (p : Policy) → IsValid p → validate p ≡ ok p
unfolding validate
validate_of_IsValid p v = ground arith

validate_sound : (p : Policy) {q : Policy} → validate p ≡ ok q → IsValid p × (q ≡ p)
unfolding validate
validate_sound p e = ground arith

-- A policy passes exactly if 1 ≤ lockout_at < wipe_at ≤ max_prompts ≤ 20 and lockout_delay ≤ 3600,
-- and it is returned as it is.
pub validate_iff : (p q : Policy) → (validate p ≡ ok q) ↔ (IsValid p × (q ≡ p))
validate_iff p q = (λ e. validate_sound p e, λ h. rw h.1 (validate_of_IsValid p h.0))

-- Every policy that is read from a text is valid.
parse-IsValid : (text : Text) {p : Policy} → parse text ≡ ok p → IsValid p
unfolding parse
parse-IsValid text {p} e = elim (Result-cases (parse_lines (lines text) default_policy)) [
  | inl (q, good) ↦ ground (arith, validate_sound q {q = p})
  | inr (x, bad) ↦ ground arith
]
