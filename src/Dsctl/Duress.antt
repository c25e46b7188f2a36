-- ===== src/Dsctl/Duress.antt =====
-- `set_duress` and `panic_wipe` of dsctl/src/main.rs. What is typed at the prompts is an argument.
pub mod Enrolled
use deathstr0ke.Base.{
  ℕ, Bool, true, false, not, List, [], ◌∷◌, Option, Result, ok, ltb, length, context, expect_some,
  bail_if,
}
use deathstr0ke.Text.{Text, Bytes, text_eq}
use deathstr0ke.Files.{File, text, read_to_string, readable}
use deathstr0ke.Effects.{Prog, ◌>>=◌, ◌>>◌, pure, lift, act, query}
use deathstr0ke.Core.Policy.{Policy, config_text}
use deathstr0ke.Core.Verifier
use deathstr0ke.Core.Verifier.{DuressHash, Crypto, default_iterations, derive, verify, serialize}
use deathstr0ke.Enroll.{enrollment_policy}
use deathstr0ke.Erase.Host.{configured_target}
use deathstr0ke.Dsctl.Machine.{Machine, require_root}

-- The two files of the state directory, and the devices that ds-erase was started on.
pub record Vault : Type 0 where
  pub duress_hash : File
  pub config : File
  pub fired : List Text

module _ (crypto : Crypto) (host : Machine) where
  unfoldable pub set_duress :
      Bool → List Text → (code again csprng : Result Bytes) → Prog Vault (Unit {0})
  unfolding require_root enrollment_policy derive config_text serialize
  set_duress armed args code again csprng = do
    lift (λ s. require_root host)
    lift (λ s. bail_if armed "disarm before changing the duress verifier")
    policy ← lift (λ s. enrollment_policy args)
    first ← lift (λ s. code)
    second ← lift (λ s. again)
    lift (λ s. bail_if (not (text_eq first second)) "codes did not match")
    lift (λ s. bail_if (ltb (length first) 6) "duress code too short (min 6 chars)")
    h ← lift (λ s. derive crypto csprng first default_iterations)
    query "create state dir" (λ s. ok tt)
    act "write config" (λ s. record s { config = text (config_text policy) })
    act "write verifier" (λ s. record s { duress_hash = text (serialize h) })

  unfoldable pub panic_wipe : Bool → Result Bytes → Prog Vault (Unit {0})
  unfolding require_root Verifier.parse verify configured_target
  panic_wipe armed typed = do
    lift (λ s. require_root host)
    lift (λ s.
        bail_if (not armed) "DEATHSTROKE is not armed on this machine; there is nothing to trigger")
    stored ←
        lift
          (λ s. read_to_string "no duress verifier enrolled (run `dsctl set-duress`)" s.duress_hash)
    h ← lift (λ s. Verifier.parse stored)
    candidate ← lift (λ s. typed)
    matches ← lift (λ s. verify crypto h candidate)
    lift (λ s.
        bail_if (not matches) "phrase does not match the enrolled duress phrase; no action taken")
    device ← lift (λ s.
        expect_some "no target device recorded" (configured_target (readable host.target_device)))
    act "ds-erase did not complete successfully" (λ s. record s { fired = device ∷ s.fired })
