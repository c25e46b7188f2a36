-- ===== src/Tests/PamTests.antt =====
-- pam_ds/src/lib.rs on small inputs.
use deathstr0ke.Base.{
  ℕ, ◌≡◌, ◌+◌, ◌-◌, refl, Bool, true, false, List, [], ◌∷◌, some, ok, length, arith,
}
use deathstr0ke.Text.{codes}
use deathstr0ke.Files.{missing, text}
use deathstr0ke.Effects.{works, done}
use deathstr0ke.Effects.Laws.{Ends}
use deathstr0ke.Core.{test_mode}
use deathstr0ke.Core.Verifier.{serialize, verify}
use deathstr0ke.Core.Verifier.RoundTrip.{parse-serialize}
use deathstr0ke.Core.Attempts.{no_attempts, read_attempts}
use deathstr0ke.Pam.{
  Machine, auth_err, authenticate, erase_command, preauth, mode_of, armed, on_authfail,
}
use deathstr0ke.Pam.Modes.{Compared, Allowed, duress_fires, preauth_fails_closed}
use deathstr0ke.Pam.Escalation.{after_failure, after_failures, authfail_escalates, failures_launch}
use deathstr0ke.Tests.Fixtures.{toy_crypto, release, sample_hash, sample_hash-IsWellFormed}

abbrev machine : Bool → Machine
machine enrolled = record {
  armed_marker = enrolled;
  duress_hash = text (serialize sample_hash);
  attempts = missing;
  launched = [];
  slept = 0;
}

release_build : test_mode release ≡ false
release_build = unfold test_mode in refl

is_armed : (enrolled : Bool) → armed release (machine enrolled) ≡ enrolled
is_armed true = unfold armed in refl
is_armed false = unfold armed in refl

first_mode : mode_of [] ≡ preauth
first_mode = unfold mode_of in refl

duress-Compared : Compared toy_crypto (some (codes "duress")) true (machine true)
duress-Compared = record {
  content = serialize sample_hash;
  verifier = sample_hash;
  token = codes "duress";
  stored = refl;
  parsed = parse-serialize sample_hash sample_hash-IsWellFormed;
  entered = refl;
  compared = unfold verify in refl;
}

duress_fires_example :
    authenticate release toy_crypto (some (codes "duress")) 1000 [] (machine true) []
    ≡ done auth_err (record (machine true) { launched = erase_command ∷ [] }) []
duress_fires_example =
    duress_fires release toy_crypto (some (codes "duress")) 1000 [] (machine true) release_build
      (is_armed true) first_mode duress-Compared

preauth_fails_closed_example :
    Ends
      (Allowed release toy_crypto (some (codes "daily")) (machine true))
      (λ _. Unit {0})
      (authenticate release toy_crypto (some (codes "daily")) 1000 [] (machine true) (works ∷ []))
preauth_fails_closed_example =
    preauth_fails_closed release toy_crypto (some (codes "daily")) 1000 [] (machine true)
      (works ∷ []) (is_armed true) first_mode

nothing_counted : read_attempts missing ≡ ok no_attempts
nothing_counted = unfold read_attempts in refl

authfail_escalates_example :
    on_authfail release 1000 (machine true) []
    ≡ done auth_err (after_failure release release_build 1000 no_attempts (machine true)) []
authfail_escalates_example =
    authfail_escalates release release_build 1000 no_attempts (machine true) nothing_counted

abbrev six_times : List ℕ
six_times = 10 ∷ 20 ∷ 30 ∷ 40 ∷ 50 ∷ 60 ∷ []

failures_launch_example :
    length (after_failures release six_times (machine true)).launched + (0 - 4) ≡ 0 + ((0 + 6) - 4)
failures_launch_example =
    failures_launch release release_build six_times no_attempts (machine true) nothing_counted
      (ground arith) (ground arith)
