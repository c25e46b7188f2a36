-- ===== src/Enroll/Stored.antt =====
-- What an enrolled policy is when it is read again.
use deathstr0ke.Base.{◌≡◌, refl, List, [], ok, arith, Result-cases, inl, inr}
use deathstr0ke.Text.{Text, codes}
use deathstr0ke.Files.{text}
use deathstr0ke.Core.Policy.{Policy, default_policy, parse, config_text}
use deathstr0ke.Core.Policy.Bounds.{IsValid, validate_iff}
use deathstr0ke.Core.Policy.RoundTrip.{parse-config_text}
use deathstr0ke.Enroll.{
  take_options, raise_prompts, has_seen, drop_first, enrollment_policy, read_policy,
}

enrollment_policy-IsValid :
    (args : List Text) {p : Policy} → enrollment_policy args ≡ ok p → IsValid p
unfolding enrollment_policy
enrollment_policy-IsValid args {p} e =
    elim (Result-cases (take_options (drop_first args) [] default_policy)) [
      | inl (taken, good) ↦ ground (
        arith,
        (validate_iff (raise_prompts (has_seen taken.1 (codes "--max-prompts")) taken.0) p).0,
      )
      | inr (x, bad) ↦ ground arith
    ]

-- A policy that set-duress accepts from its options is valid, and the text that is stored for it is
-- read back as that policy by dsctl and by the parser that ds-unlock uses.
pub enrollment_policy_stored :
    (args : List Text) {p : Policy}
    → enrollment_policy args ≡ ok p
    → IsValid p × (parse (config_text p) ≡ ok p) × (read_policy (text (config_text p)) ≡ ok p)
unfolding read_policy
enrollment_policy_stored args {p} e =
    let valid = enrollment_policy-IsValid args {p = p} e in
    let read = parse-config_text p valid in (valid, read, rw read refl)
