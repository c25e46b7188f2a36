-- ===== src/Tests/EraseTests.antt =====
-- ds-erase/src/main.rs on small inputs.
use deathstr0ke.Base.{◌≡◌, ◌↔◌, refl, true, false, List, [], ◌∷◌, none, some, ok, arith}
use deathstr0ke.Text.{Text, codes}
use deathstr0ke.Files.{text}
use deathstr0ke.Effects.{
  Fate, works, cut, done, final, ◌>>=◌, pure, query, lift, when, act_half, attempt,
}
use deathstr0ke.Luks.{active, contains, slots_of_dump}
use deathstr0ke.Erase.Journal.{
  kill_slot, erase, validate_mode_slots, check_journal, validate_map_name,
}
use deathstr0ke.Erase.Journal.Checks.{Fits, validate_mode_slots_iff, Checked, check_journal_sound}
use deathstr0ke.Erase.Arguments.{Choice, has_flag, parse_mode}
use deathstr0ke.Erase.Arguments.Modes.{parse_mode_deliberate}
use mathlib.Core.List.{flat_map}
use deathstr0ke.FilePath.{parent}
use deathstr0ke.Erase.Headers.{no_node}
use deathstr0ke.Erase.World.{World, write_journal, remove_journal}
use deathstr0ke.Erase.Transaction.{run_transaction, keyslot_active}
use deathstr0ke.Erase.Transaction.Safety.{Targets, run_transaction_spares}
use deathstr0ke.Erase.Transaction.Outcome.{Finished, run_transaction_finishes}
use deathstr0ke.Erase.Transaction.Completion.{run_transaction_completes}
use deathstr0ke.Tests.Fixtures.{two_slots, two_slots-IsFaithful, daily_journal, toy_codec}

abbrev before : World two_slots
before = record {
  device = record { zeroth = true; first = true };
  journal = text (codes "journal");
  journal_temp = none;
  tree = λ path. no_node;
  links = some (codes "lo" ∷ codes "eth0" ∷ []);
  links_down = [];
  networking_off = false;
  seat_terminated = false;
  mapping_closed = false;
  poweroff_requested = false;
}

targets : Targets 0 (some 1) daily_journal
targets = (refl, refl, refl)

-- The power is cut right behind the destruction of the daily slot.
abbrev cut_short : List Fate
cut_short = works ∷ works ∷ works ∷ cut ∷ []

run_transaction_spares_example :
    active two_slots
      (final (run_transaction toy_codec daily_journal false before cut_short)).device
      1
    ≡ active two_slots before.device 1
run_transaction_spares_example =
    run_transaction_spares two_slots-IsFaithful toy_codec 0 (some 1) daily_journal false before
      cut_short targets 1 (ground arith)

-- Where every step works.
abbrev after : World two_slots
after = final (run_transaction toy_codec daily_journal false before [])

completed : run_transaction toy_codec daily_journal false before [] ≡ done tt after []
unfolding run_transaction ◌>>=◌ pure keyslot_active query lift contains slots_of_dump when act_half
    write_journal attempt remove_journal
completed = refl

run_transaction_finishes_example : Finished 0 1 false after
run_transaction_finishes_example =
    run_transaction_finishes toy_codec 0 1 daily_journal false before after [] [] targets completed

validate_mode_slots_iff_example :
    (validate_mode_slots kill_slot (some 3) (some 3) ≡ ok tt) ↔ Fits kill_slot (some 3) (some 3)
validate_mode_slots_iff_example = validate_mode_slots_iff kill_slot (some 3) (some 3)

abbrev whole_erase : List Text
whole_erase = codes "--fire" ∷ codes "--mode" ∷ codes "erase" ∷ codes "--destroy-recovery" ∷ []

abbrev whole_choice : Choice none none
whole_choice = record { mode = erase; slot = none; recovery_slot = none }

parse_mode_deliberate_example :
    Fits erase none none
    × (erase ≡ erase → has_flag whole_erase (codes "--destroy-recovery") ≡ true)
parse_mode_deliberate_example = parse_mode_deliberate none none whole_erase whole_choice parsed
  where
    parsed : parse_mode none none whole_erase ≡ ok whole_choice
    parsed = unfold parse_mode in refl

abbrev journal_path : Text
journal_path = codes "/boot/efi/deathstroke/inprogress"

check_journal_sound_example :
    (daily_journal ≡ daily_journal) × Checked (λ path. ok path) journal_path daily_journal
check_journal_sound_example =
    check_journal_sound (λ path. ok path) journal_path daily_journal daily_journal checked
  where
    checked : check_journal (λ path. ok path) journal_path daily_journal ≡ ok daily_journal
    checked = unfold check_journal flat_map parent validate_map_name in refl

recovery_active : active two_slots before.device 1 ≡ true
recovery_active = unfold contains slots_of_dump in refl

run_transaction_completes_example :
    (t : World two_slots) × (run_transaction toy_codec daily_journal false before [] ≡ done tt t [])
    × Finished 0 1 false t
run_transaction_completes_example =
    run_transaction_completes two_slots-IsFaithful toy_codec 0 1 daily_journal false before
      (ground arith) targets refl recovery_active refl
