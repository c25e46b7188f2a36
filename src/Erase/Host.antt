-- ===== src/Erase/Host.antt =====
-- What the commands of ds-erase/src/main.rs read of the machine, and the checks that only they make.
use deathstr0ke.Base.{
  Bool, not, ◌&&◌, List, [], ◌∷◌, Option, none, some, ltb, length, Result, ok, err, ◌>>=◌, ◌>>◌,
  context, bail_if,
}
use deathstr0ke.Text.{Text, codes, trim}
use deathstr0ke.FilePath.{path_starts_with, parent}
use deathstr0ke.Files.{File, missing, unreadable, text}
use deathstr0ke.Core.{Process, test_mode}
use deathstr0ke.Erase.Journal.{Journal, validate_text_field, validate_map_name, check_journal}
use deathstr0ke.Erase.Arguments.{has_flag}
use deathstr0ke.Erase.World.{Codec}

-- What the commands read of the machine and do not change: the marker of a disposable machine, the
-- files of the state directory, and what the file system and `cryptsetup isLuks` answer.
pub record Host : Type 0 where
  pub process : Process
  pub disposable : Bool
  pub target_device : File
  pub daily_slot : File
  pub recovery_slot : File
  pub canonicalize : Text → Result Text
  pub is_block_device : Text → Result Bool
  pub is_luks : Text → Result Bool

abbrev pub default_journal : Text
default_journal = codes "/boot/efi/deathstroke/inprogress"

-- An empty record is none.
named : Text → Option Text
named [] = none
named (c ∷ s) = some (c ∷ s)

unfoldable pub configured_target : Option Text → Option Text
unfolding named trim
configured_target none = none
configured_target (some s) = named (trim s)

journal_dir : Option Text → Text
journal_dir none = codes "/boot"
journal_dir (some dir) = dir

unfoldable pub or_else : Option Text → Option Text → Option Text
or_else (some a) o = some a
or_else none o = o

abbrev pub value_or : Text → Option Text → Text
value_or d none = d
value_or d (some t) = t

unfoldable pub check_map_name : Option Text → Result (Unit {0})
unfolding validate_map_name
check_map_name none = ok tt
check_map_name (some name) = validate_map_name name

-- Without `--header-scan`, the directory of the journal is searched.
unfoldable pub scan_roots : Text → List Text → List Text
unfolding journal_dir parent
scan_roots path [] = journal_dir (parent path) ∷ []
scan_roots path (root ∷ roots) = root ∷ roots

module _ (host : Host) where
  unfoldable pub guard : Result (Unit {0})
  guard = bail_if (not host.disposable) "SAFETY GUARD: not marked disposable; refusing to fire"

  unfoldable pub validate_target : Text → Result (Unit {0})
  unfolding validate_text_field path_starts_with
  validate_target device = do
    validate_text_field device
    path ← context "resolve target" (host.canonicalize device)
    bail_if (not (path_starts_with path (codes "/dev/"))) "target must resolve below /dev"
    block ← context "stat target" (host.is_block_device path)
    bail_if (not block) "target is not a block device"
    luks ← context "cryptsetup isLuks" (host.is_luks device)
    bail_if (not luks) "target is not a valid LUKS container"

  unfoldable pub test_no_poweroff : List Text → Bool
  unfolding has_flag test_mode
  test_no_poweroff args = has_flag args (codes "--test-no-poweroff") && test_mode host.process

  decode_journal : Codec → Text → Text → Result Journal
  unfolding check_journal
  decode_journal codec path bytes = do
    bail_if (ltb 65536 (length bytes)) "journal exceeds 64 KiB"
    j ← context "parse journal" (codec.from_slice bytes)
    check_journal host.canonicalize path j

  -- The bytes of the journal's file are the numbers of its text.
  unfoldable pub read_journal : Codec → Text → File → Result Journal
  unfolding decode_journal
  read_journal codec path missing = err "read journal"
  read_journal codec path unreadable = err "read journal"
  read_journal codec path (text bytes) = decode_journal codec path bytes
