-- ===== src/Erase/Commands.antt =====
-- The commands of ds-erase/src/main.rs: `run`, `fire` and `resume`.
pub mod Expected
pub mod Fired
use deathstr0ke.Base.{
  ℕ, Bool, true, false, not, ◌&&◌, ◌||◌, List, [], ◌∷◌, Option, none, some, ◌==◌, if◌then◌else◌,
  Result, ok, context, expect_some, bail_if, String,
}
use deathstr0ke.Text.{Text, codes, text_eq}
use deathstr0ke.Base
use deathstr0ke.Text.Numbers.{u8_max, parse_uint}
use deathstr0ke.Files.{readable, is_file}
use deathstr0ke.Effects.{Prog, ◌>>=◌, ◌>>◌, pure, fail, lift}
use deathstr0ke.Core.{test_mode}
use deathstr0ke.Luks.{Cryptsetup}
use deathstr0ke.Erase.Journal.{
  Journal, EraseMode, kill_slot, erase, prepared, journal_version, validate_mode_slots,
  validate_map_name, validate_journal_path, validate_scan_roots,
}
use deathstr0ke.Erase.Arguments.{flag, args_multi, has_flag, Choice, parse_mode}
use deathstr0ke.Erase.World.{Codec, World, write_journal}
use deathstr0ke.Erase.Transaction.{run_transaction}
use deathstr0ke.Erase.Host.{
  Host, default_journal, configured_target, or_else, value_or, check_map_name, scan_roots, guard,
  validate_target, test_no_poweroff, read_journal,
}

abbrev is_killing : EraseMode → Bool
is_killing kill_slot = true
is_killing erase = false

abbrev is_slot : ℕ → Option ℕ → Bool
is_slot n none = false
is_slot n (some m) = m == n

abbrev is_text : Text → Option Text → Bool
is_text t none = false
is_text t (some u) = text_eq u t

-- An expected slot of the command line.
unfoldable pub expected_number : Option Text → String → String → Result ℕ
unfolding parse_uint
expected_number value absent bad =
    Base.◌>>=◌ (expect_some absent value) λ s. expect_some bad (parse_uint u8_max s)

unfoldable pub expected_slot : List Text → Result ℕ
unfolding expected_number flag
expected_slot args =
    expected_number (flag args (codes "--expected-slot")) "--resume requires --expected-slot"
      "bad --expected-slot"

unfoldable pub expected_recovery_slot : List Text → Result ℕ
unfolding expected_number flag
expected_recovery_slot args =
    expected_number (flag args (codes "--expected-recovery-slot"))
      "--resume requires --expected-recovery-slot" "bad --expected-recovery-slot"

-- Where the mapping's name is expected too.
check_expected_map : Option Text → Option Text → Result (Unit {0})
unfolding validate_map_name
check_expected_map none name = ok tt
check_expected_map (some expected) name = Base.◌>>◌ (validate_map_name expected) (
    bail_if (not (is_text expected name))
      "journal mapping name does not match the trusted boot configuration")

module _ {c : Cryptsetup} (host : Host) (codec : Codec) where
  -- A check that does not look at what is acted on.
  unfoldable pub check : {A : Type 0} → Result A → Prog (World c) A
  check r = lift (λ s. r)

  write_and_run : Journal → Bool → Prog (World c) (Unit {0})
  unfolding write_journal run_transaction
  write_and_run j no_poweroff = do write_journal codec j; run_transaction codec j no_poweroff

  unfoldable pub fire : List Text → Prog (World c) (Unit {0})
  unfolding check guard configured_target or_else flag validate_target parse_mode
      validate_journal_path args_multi scan_roots validate_scan_roots check_map_name write_and_run
      test_no_poweroff
  fire args = do
    check (guard host)
    device ← check (
        expect_some "--fire needs --device <dev> or a configured target.device" (
          or_else (flag args (codes "--device")) (configured_target (readable host.target_device))))
    check (validate_target host device)
    choice ← check (parse_mode (readable host.daily_slot) (readable host.recovery_slot) args)
    let path : Text = value_or default_journal (flag args (codes "--journal"))
    check (validate_journal_path path)
    lift (λ (s : World c). bail_if (is_file s.journal) "journal already exists; use --resume")
    let scan : List Text = scan_roots path (args_multi args (codes "--header-scan"))
    check (validate_scan_roots host.canonicalize path scan)
    let j : Journal = record {
      version = journal_version;
      phase = prepared;
      device = device;
      mode = choice.mode;
      slot = choice.slot;
      recovery_slot = choice.recovery_slot;
      map_name = flag args (codes "--map-name");
      header_scan = scan;
    }
    check (check_map_name j.map_name)
    write_and_run j (test_no_poweroff host args)

  unfoldable pub resume : List Text → Prog (World c) (Unit {0})
  unfolding check guard flag expected_slot expected_recovery_slot validate_mode_slots
      validate_journal_path read_journal check_expected_map validate_target run_transaction
      test_no_poweroff
  resume args = do
    check (guard host)
    path ← check (
        expect_some "--resume requires --journal <ESP-state/inprogress>"
          (flag args (codes "--journal")))
    expected_device ←
        check (
          expect_some "--resume requires --expected-device" (flag args (codes "--expected-device")))
    slot ← check (expected_slot args)
    recovery ← check (expected_recovery_slot args)
    check (validate_mode_slots kill_slot (some slot) (some recovery))
    check (validate_journal_path path)
    j ← lift (λ (s : World c). read_journal host codec path s.journal)
    check (
        bail_if
          (not (is_killing j.mode)
            || not (is_slot slot j.slot)
            || not (is_slot recovery j.recovery_slot))
          "journal mode/daily/recovery slots do not match the trusted boot expectation")
    journal_device ← check (context "resolve journal device" (host.canonicalize j.device))
    trusted_device ← check (context "resolve expected device" (host.canonicalize expected_device))
    check (
        bail_if (not (text_eq journal_device trusted_device))
          "journal device does not match the trusted boot target")
    check (check_expected_map (flag args (codes "--map-name")) j.map_name)
    check (validate_target host j.device)
    run_transaction codec j (test_no_poweroff host args)

  -- By the first argument. `--check` only reports, `--self-test` acts on a loop device of its own.
  unfoldable pub by_command : List Text → Prog (World c) (Unit {0})
  unfolding fire resume
  by_command [] = fail "usage"
  by_command (command ∷ rest) =
      if text_eq command (codes "--check")
      then pure tt
      else if text_eq command (codes "--self-test")
      then pure tt
      else if text_eq command (codes "--resume")
      then resume (command ∷ rest)
      else if text_eq command (codes "--fire")
      then fire (command ∷ rest)
      else fail "usage"

  unfoldable pub run : List Text → Prog (World c) (Unit {0})
  unfolding by_command check has_flag test_mode
  run args = do
    check (
        bail_if (has_flag args (codes "--test-no-poweroff") && not (test_mode host.process))
          "--test-no-poweroff requires a debug build with DS_TEST_MODE=1; no action taken")
    by_command args
