-- ===== src/Tests/CoreTests.antt =====
-- ds-core/src/lib.rs on small inputs.
use deathstr0ke.Base.{◌≡◌, ◌↔◌, refl, true, false, List, [], ◌∷◌, ok, arith}
use deathstr0ke.Text.{Text, codes}
use deathstr0ke.Files.{text}
use deathstr0ke.Effects.{Fate, works, fails, half}
use deathstr0ke.Effects.Laws.{Ends}
use deathstr0ke.Core.Verifier.{
  DuressHash, IsWellFormed, IsByte, serialize, derive, verify, min_iterations, max_iterations,
}
use deathstr0ke.Core.Verifier
use deathstr0ke.Core.Verifier.RoundTrip.{parse-serialize}
use deathstr0ke.Core.Verifier.Checks.{parse_sound}
use deathstr0ke.Core.Policy.{Policy, default_policy, validate, config_text}
use deathstr0ke.Core.Policy
use deathstr0ke.Core.Policy.Bounds.{IsValid, validate_iff}
use deathstr0ke.Core.Policy.RoundTrip.{parse-config_text}
use deathstr0ke.Enroll.{enrollment_policy, read_policy}
use deathstr0ke.Enroll.Stored.{enrollment_policy_stored}
use deathstr0ke.Core.AtomicWrite.{absent, Place, directory, atomic_write}
use deathstr0ke.Core.AtomicWrite.Crash.{Done, Whole, atomic_write-Whole}
use deathstr0ke.Core.Attempts.{Attempts, attempts_text, record_failure}
use deathstr0ke.Core.Attempts.Counting.{read_attempts-text, Recorded, Kept, record_failure_counts}
use deathstr0ke.Luks.Printed.{Entry, keyslot, key_slot, field}
use deathstr0ke.Tests.Fixtures.{default_policy-IsValid, sample_hash, sample_hash-IsWellFormed}

parse-serialize_example : Verifier.parse (serialize sample_hash) ≡ ok sample_hash
parse-serialize_example = parse-serialize sample_hash sample_hash-IsWellFormed

parse_sound_example : IsWellFormed sample_hash
parse_sound_example =
    parse_sound (serialize sample_hash) (parse-serialize sample_hash sample_hash-IsWellFormed)

validate_iff_example :
    (validate default_policy ≡ ok default_policy)
    ↔ (IsValid default_policy × (default_policy ≡ default_policy))
validate_iff_example = validate_iff default_policy default_policy

parse-config_text_example : Policy.parse (config_text default_policy) ≡ ok default_policy
parse-config_text_example = parse-config_text default_policy default_policy-IsValid

abbrev fresh_place : Place
fresh_place = record { parent = directory 0o700; target = absent; temp = absent; dir_synced = true }

-- The rename works and the sync of the directory fails.
abbrev late_failure : List Fate
late_failure = works ∷ works ∷ works ∷ works ∷ works ∷ works ∷ works ∷ fails ∷ []

atomic_write-Whole_example :
    Ends
      (λ _. Done absent (codes "1 2\n") 0o600 0o600)
      (Whole absent (codes "1 2\n") 0o600 0o600)
      (atomic_write true (codes "1 2\n") 0o600 0o600 fresh_place late_failure)
atomic_write-Whole_example =
    atomic_write-Whole true (codes "1 2\n") 0o600 0o600 fresh_place late_failure

abbrev two_failures : Attempts
two_failures = record { count = 2; last_fail = 1000 }

record_failure_counts_example :
    Ends
      (Recorded 1005 two_failures)
      (Kept 1005 two_failures)
      (record_failure 1005 (text (attempts_text two_failures)) (half ∷ []))
record_failure_counts_example =
    record_failure_counts 1005 two_failures (ground arith) (text (attempts_text two_failures))
      (half ∷ []) (read_attempts-text two_failures (ground arith) (ground arith))

-- Two slots of LUKS2, a token, and a slot of LUKS1 that is disabled.
abbrev mixed_dump : List (Text × Entry)
mixed_dump =
    ([], field (codes "Keyslots") [])
    ∷ (codes "  ", keyslot 0)
    ∷ (codes "  ", keyslot 31)
    ∷ (codes "  ", field (codes "0") (codes " systemd-tpm2"))
    ∷ ([], key_slot 7 false)
    ∷ []

abbrev strict_options : List Text
strict_options =
    codes "set-duress" ∷ codes "--lockout-at" ∷ codes "2" ∷ codes "--wipe-at" ∷ codes "7" ∷ []

abbrev strict_policy : Policy
strict_policy = record { lockout_at = 2; wipe_at = 7; lockout_delay = 0; max_prompts = 7 }

enrollment_policy_stored_example :
    IsValid strict_policy
    × (Policy.parse (config_text strict_policy) ≡ ok strict_policy)
    × (read_policy (text (config_text strict_policy)) ≡ ok strict_policy)
enrollment_policy_stored_example =
    enrollment_policy_stored strict_options {p = strict_policy} accepted
  where
    accepted : enrollment_policy strict_options ≡ ok strict_policy
    accepted = unfold enrollment_policy in refl
