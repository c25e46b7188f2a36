-- ===== src/Dsctl/Machine.antt =====
-- What arming reads of the machine and does not change, and the checks on it: dsctl/src/main.rs.
pub mod Sound
use deathstr0ke.Base.{
  ℕ, Bool, true, false, not, ◌&&◌, ◌||◌, List, [], ◌∷◌, Option, none, some, ltb, ◌==◌, any, Result,
  ok, err, ◌>>=◌, ◌>>◌, context, expect_some, bail_if,
}
use deathstr0ke.Text.{Text, codes, trim, str_len}
use deathstr0ke.Text.Numbers.{u8_max, parse_uint}
use deathstr0ke.FilePath.{path_starts_with}
use deathstr0ke.Files.{File, missing, unreadable, text, read_to_string, readable}
use deathstr0ke.Core.Policy.{Policy, validate}
use deathstr0ke.Core.Verifier
use deathstr0ke.Core.Verifier.{DuressHash}
use deathstr0ke.Luks.{slots_of_dump, contains}
use deathstr0ke.Erase.Host.{configured_target}
use deathstr0ke.Enroll.{read_policy}

pub record Machine : Type 0 where
  pub root : Bool
  pub disposable : Bool
  pub module_deployed : Bool
  pub duress_hash : File
  pub config : File
  pub target_device : File
  pub daily_slot : File
  pub recovery_slot : File
  pub canonicalize : Text → Result Text
  pub is_block_device : Text → Result Bool
  pub is_luks : Text → Result Bool
  pub luks_dump : Text → Result Text

is_forbidden : ℕ → Bool
is_forbidden c = c == b'\n' || c == b'\r' || c == 0

unfoldable pub is_empty : List ℕ → Bool
is_empty [] = true
is_empty (n ∷ ns) = false

unfoldable pub read_slot : File → Result ℕ
unfolding parse_uint trim
read_slot f = do
  t ← read_to_string "read slot" f
  n ← expect_some "invalid keyslot metadata" (parse_uint u8_max (trim t))
  bail_if (ltb 31 n) "keyslot outside 0..31"
  ok n

module _ (host : Machine) where
  unfoldable pub require_root : Result (Unit {0})
  require_root = bail_if (not host.root) "must run as root (it manages the reserved state dir)"

  unfoldable pub guard_disposable : Result (Unit {0})
  guard_disposable = bail_if (not host.disposable) "SAFETY GUARD: not marked disposable"

  unfoldable pub validate_luks_device : Text → Result (Unit {0})
  unfolding is_empty is_forbidden path_starts_with str_len
  validate_luks_device device = do
    bail_if (is_empty device || ltb 4096 (str_len device) || any is_forbidden device)
        "invalid LUKS device path"
    resolved ← context "resolve" (host.canonicalize device)
    bail_if (not (path_starts_with resolved (codes "/dev/"))) "LUKS device must resolve below /dev"
    block ← host.is_block_device resolved
    bail_if (not block) "LUKS target is not a block device"
    luks ← context "cryptsetup isLuks" (host.is_luks device)
    bail_if (not luks) "target is not a valid LUKS container"

  unfoldable pub active_keyslots : Text → Result (List ℕ)
  unfolding is_empty slots_of_dump
  active_keyslots device = do
    dump ← context "cryptsetup luksDump" (host.luks_dump device)
    bail_if (is_empty (slots_of_dump dump)) "LUKS container has no active keyslots"
    ok (slots_of_dump dump)

-- What the checks of `arm` before the registry give to the rest of it.
pub record Ready : Type 0 where
  pub verifier : Text
  pub policy : Policy
  pub target : Text
  pub daily : ℕ
  pub recovery : ℕ
  pub slots : List ℕ

unfoldable pub check_ready : Machine → Result Ready
unfolding require_root guard_disposable Verifier.parse read_policy validate configured_target
    validate_luks_device read_slot active_keyslots contains
check_ready host = do
  require_root host
  guard_disposable host
  bail_if (not host.module_deployed) "pam_ds.so not deployed"
  verifier ← read_to_string "read duress verifier" host.duress_hash
  _ ← context "invalid duress verifier" (Verifier.parse verifier)
  policy ← read_policy host.config
  _ ← validate policy
  target ←
      expect_some "no verified recovery target; run enroll-recovery"
        (configured_target (readable host.target_device))
  validate_luks_device host target
  daily ← read_slot host.daily_slot
  recovery ← read_slot host.recovery_slot
  bail_if (daily == recovery) "daily and recovery slots must differ"
  slots ← active_keyslots host target
  bail_if (not (contains slots daily) || not (contains slots recovery))
      "recorded daily/recovery slots are not both active"
  ok (record {
    verifier = verifier;
    policy = policy;
    target = target;
    daily = daily;
    recovery = recovery;
    slots = slots;
  })
