-- ===== src/Tests/CommandTests.antt =====
-- The commands of ds-erase/src/main.rs on a small device.
use deathstr0ke.Base.{
  ℕ, ◌≡◌, ◌≢◌, ◌⊎◌, refl, sym, ◌∙◌, true, false, List, [], ◌∷◌, none, some, Result, ok, arith,
}
use deathstr0ke.Text.{Text, codes}
use deathstr0ke.Files.{missing, text}
use deathstr0ke.Effects.{Fate, works, cut, final, done}
use deathstr0ke.Effects.Laws.{Ends}
use deathstr0ke.Luks.{active, contains, slots_of_dump}
use deathstr0ke.Erase.World.{World}
use deathstr0ke.Erase.Headers.{no_node}
use deathstr0ke.FilePath.{join_path}
use deathstr0ke.Text.Numbers.{decimal}
use deathstr0ke.Erase.Host.{Host}
use deathstr0ke.Erase.Commands.{run, expected_slot, resume}
use deathstr0ke.Erase.Commands.Expected.{Trusted, resume_spares, resume_needs_trust}
use deathstr0ke.Erase.Transaction.{run_transaction}
use deathstr0ke.Erase.Transaction.Refinement.{without, run_transaction_refines}
use deathstr0ke.Unlock.State
use deathstr0ke.Unlock.Wipes.{erase_arguments}
use deathstr0ke.Unlock.Wipes.Spares.{erase_arguments_spare}
use deathstr0ke.Tests.Fixtures.{two_slots, two_slots-IsFaithful, daily_journal, toy_codec, release}

abbrev machine : Host
machine = record {
  process = release;
  disposable = true;
  target_device = text (codes "/dev/sda2\n");
  daily_slot = text (codes "0\n");
  recovery_slot = text (codes "1\n");
  canonicalize = λ path. ok path;
  is_block_device = λ path. ok true;
  is_luks = λ path. ok true;
}

abbrev before : World two_slots
before = record {
  device = record { zeroth = true; first = true };
  journal = text (codes "journal");
  journal_temp = none;
  tree = λ path. no_node;
  links = some (codes "lo" ∷ codes "eth0" ∷ []);
  links_down = [];
  networking_off = false;
  seat_terminated = false;
  mapping_closed = false;
  poweroff_requested = false;
}

abbrev cut_short : List Fate
cut_short = works ∷ works ∷ works ∷ cut ∷ []

abbrev resumption : State.EraseRun
resumption = State.resume (codes "/dev/sda2") 0 1 (codes "cryptroot")

abbrev resume_line : List Text
resume_line = erase_arguments release (codes "/boot/efi/deathstroke") resumption

expects_daily : expected_slot resume_line ≢ ok 1
expects_daily e = differ (sym found ∙ e)
  where
    found : expected_slot resume_line ≡ ok 0
    found = unfold expected_slot erase_arguments join_path decimal in refl

    differ : ◌≡◌ {A = Result ℕ} (ok 0) (ok 1) → ⊥
    differ k = cc

resume_spares_example :
    active two_slots (final (resume machine toy_codec resume_line before cut_short)).device 1
    ≡ active two_slots before.device 1
resume_spares_example =
    resume_spares two_slots-IsFaithful machine toy_codec resume_line before cut_short 1
      expects_daily

resume_needs_trust_example :
    Ends
      (λ _ _. Trusted machine toy_codec resume_line before)
      (λ t. (t ≡ before) ⊎ Trusted machine toy_codec resume_line before)
      (resume machine toy_codec resume_line before cut_short)
resume_needs_trust_example = resume_needs_trust machine toy_codec resume_line before cut_short

erase_arguments_spare_example :
    active two_slots
      (final (
        run machine toy_codec
          (erase_arguments release (codes "/boot/efi/deathstroke") resumption)
          before
          cut_short)).device
      1
    ≡ active two_slots before.device 1
erase_arguments_spare_example =
    erase_arguments_spare two_slots-IsFaithful machine toy_codec release
      (codes "/boot/efi/deathstroke") resumption before cut_short 1 refl
      (refl, ground arith, ground arith, ground arith) (ground arith)

recovery_active : active two_slots before.device 1 ≡ true
recovery_active = unfold contains slots_of_dump in refl

run_transaction_refines_example :
    (t : World two_slots) × (run_transaction toy_codec daily_journal false before [] ≡ done tt t [])
    × (active two_slots t.device ≡ without 0 (active two_slots before.device))
    × (t.journal ≡ missing)
run_transaction_refines_example =
    run_transaction_refines two_slots-IsFaithful toy_codec 0 1 daily_journal false before
      (ground arith) (refl, refl, refl) refl recovery_active refl
