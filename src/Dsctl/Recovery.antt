-- ===== src/Dsctl/Recovery.antt =====
-- `enroll_recovery` of dsctl/src/main.rs: a recovery keyslot is added, verified and recorded.
pub mod Matching
pub mod Recorded
use deathstr0ke.Base.{
  ℕ, Bool, true, false, not, List, [], ◌∷◌, ◌++◌, Option, none, some, Result, ok, err,
  if◌then◌else◌, String, bail_if, context, expect_some,
}
use deathstr0ke.Base
use deathstr0ke.Text.{Text, codes, text_eq}
use deathstr0ke.Files.{File, text}
use deathstr0ke.Effects.{Prog, ◌>>=◌, ◌>>◌, pure, fail, lift, act, query}
use deathstr0ke.Luks.{slots_of_dump, insert}
use deathstr0ke.Erase.Arguments.{flag}
use deathstr0ke.Dsctl.System.{slot_text}
use deathstr0ke.Dsctl.Registry.{known_text, difference}
use deathstr0ke.Dsctl.Machine.{
  Machine, require_root, guard_disposable, validate_luks_device, is_empty,
}

-- The commands of `cryptsetup` on a device: its luksDump, `open --test-passphrase` with a key file and a
-- slot, and `luksAddKey` with the existing and the new key file.
pub record Keyring : Type 1 where
  pub Device : Type 0
  pub luks_dump : Device → Text
  pub opens : Device → Text → ℕ → Bool
  pub luks_add_key : Text → Text → Device → Device

-- The device, and the records in the state directory.
pub record Records (k : Keyring) : Type 0 where
  pub device : k.Device
  pub recovery_device : File
  pub target_device : File
  pub daily_slot : File
  pub recovery_slot : File
  pub known_slots : File

unfoldable pub only : String → List ℕ → Result ℕ
only message [] = err message
only message (n ∷ []) = ok n
only message (n ∷ m ∷ rest) = err message

unfoldable pub same_slots : List ℕ → ℕ → Bool
same_slots found n = text_eq found (n ∷ [])

unfoldable pub slots_of : (k : Keyring) → k.Device → List ℕ
unfolding slots_of_dump
slots_of k d = slots_of_dump (k.luks_dump d)

unfoldable pub listed : List ℕ → Result (List ℕ)
listed slots =
    Base.◌>>◌ (bail_if (is_empty slots) "LUKS container has no active keyslots") (ok slots)

module _ {k : Keyring} where
  -- `active_keyslots` of the device.
  unfoldable pub list_keyslots : Prog (Records k) (List ℕ)
  list_keyslots = query "cryptsetup luksDump" (λ (s : Records k). listed (slots_of k s.device))

  unfoldable pub match_slots : Text → List ℕ → Prog (Records k) (List ℕ)
  match_slots keyfile [] = pure []
  match_slots keyfile (n ∷ ns) = do
    matches ←
        query "cryptsetup slot verification" (λ (s : Records k). ok (k.opens s.device keyfile n))
    rest ← match_slots keyfile ns
    pure (if matches then n ∷ rest else rest)

  unfoldable pub matching_keyslots : (Text → Bool) → Text → Prog (Records k) (List ℕ)
  unfolding list_keyslots match_slots
  matching_keyslots is_file keyfile = do
    lift (λ (s : Records k). bail_if (not (is_file keyfile)) "keyfile does not exist")
    slots ← list_keyslots
    match_slots keyfile slots

  unfoldable pub record_slots : Text → ℕ → ℕ → Prog (Records k) (Unit {0})
  unfolding slot_text known_text insert
  record_slots device daily recovery = do
    query "create state dir" (λ (s : Records k). ok tt)
    act "write recovery.device"
        (λ (s : Records k). record s { recovery_device = text (device ++ b'\n' ∷ []) })
    act "write target.device"
        (λ (s : Records k). record s { target_device = text (device ++ b'\n' ∷ []) })
    act "write daily.slot" (λ (s : Records k). record s { daily_slot = text (slot_text daily) })
    act "write recovery.slot"
        (λ (s : Records k). record s { recovery_slot = text (slot_text recovery) })
    query "create state dir" (λ (s : Records k). ok tt)
    act "write known.slots" (λ (s : Records k). record s {
      known_slots = text (known_text (insert recovery (insert daily [])));
    })

  -- Behind the checks of the command line. `is_file` says which key files there are.
  unfoldable pub add_recovery : (Text → Bool) → Text → Text → Text → Prog (Records k) (Unit {0})
  unfolding matching_keyslots list_keyslots difference same_slots record_slots
  add_recovery is_file device existing newkey = do
    daily_matches ← matching_keyslots is_file existing
    daily ← lift (λ (s : Records k).
        only "existing daily credential must match exactly one active slot" daily_matches)
    before ← list_keyslots
    act "luksAddKey failed"
        (λ (s : Records k). record s { device = k.luks_add_key existing newkey s.device })
    after ← list_keyslots
    added ← lift (λ (s : Records k).
        only "recovery enrollment did not add exactly one identifiable slot"
          (difference after before))
    recovery_matches ← matching_keyslots is_file newkey
    lift (λ (s : Records k).
        bail_if (not (same_slots recovery_matches added))
          "new recovery credential did not verify only against the added slot")
    record_slots device daily added

  unfoldable pub enroll_recovery :
      Machine → Bool → (Text → Bool) → List Text → Prog (Records k) (Unit {0})
  unfolding require_root guard_disposable flag validate_luks_device add_recovery
  enroll_recovery host armed is_file args = do
    lift (λ (s : Records k). require_root host)
    lift (λ (s : Records k). guard_disposable host)
    lift (λ (s : Records k). bail_if armed "disarm before changing recovery slots")
    device ← lift (λ (s : Records k).
        expect_some "enroll-recovery needs --device <luks-dev>" (flag args (codes "--device")))
    existing ← lift (λ (s : Records k).
        expect_some "need --existing-keyfile <path>" (flag args (codes "--existing-keyfile")))
    newkey ← lift (λ (s : Records k).
        expect_some "need --new-keyfile <path>" (flag args (codes "--new-keyfile")))
    lift (λ (s : Records k). validate_luks_device host device)
    add_recovery is_file device existing newkey
