-- ===== src/Unlock/Wipes/Spares.antt =====
-- From a wipe that ds-unlock starts to the keyslots that ds-erase touches.
use deathstr0ke.Base.{
  ℕ, ◌≡◌, ◌≢◌, ◌≤◌, refl, sym, ◌∙◌, false, List, [], ◌∷◌, Option, some, Result, ok, err, arith,
  ◌==◌, All,
}
use deathstr0ke.Text.{Text, codes, text_eq}
use deathstr0ke.Text.Numbers.{u8_max, decimal}
use deathstr0ke.Text.Numbers.Decimal.{IsDigit, decimal-IsDigit, parse_uint-decimal}
use deathstr0ke.Files.{readable}
use deathstr0ke.FilePath.{join_path}
use deathstr0ke.Effects.{Fate, Prog, final, ◌>>=◌, lift}
use deathstr0ke.Core.{Process, journal_name}
use deathstr0ke.Luks.{Cryptsetup, IsFaithful, active}
use deathstr0ke.Erase.Journal.{kill_slot}
use deathstr0ke.Erase.Journal.Checks.{validate_mode_slots_iff}
use deathstr0ke.Erase.Arguments.{
  flag, parse_mode, slot_flag, chosen_mode, named_mode, kept_recovery,
}
use deathstr0ke.Erase.World.{Codec, World}
use deathstr0ke.Erase.Host.{Host}
use deathstr0ke.Erase.Commands.{run, expected_slot, expected_number, by_command, check}
use deathstr0ke.Erase.Commands.Expected.{resume_spares}
use deathstr0ke.Erase.Commands.Fired.{one_slot, fire_spares}
use deathstr0ke.Unlock.State.{EraseRun, fire, resume}
use deathstr0ke.Unlock.Wipes.{erase_arguments}

-- An argument that is no option: it does not begin with a dash.
abbrev pub IsOperand : Text → Type 0
IsOperand [] = Unit {0}
IsOperand (c ∷ s) = (c == b'-') ≡ false

operand_ne : (t name : Text) → IsOperand t → text_eq t (b'-' ∷ name) ≡ false
operand_ne [] name h = refl
operand_ne (c ∷ s) name h = rw h refl

decimal-IsOperand : (n : ℕ) → IsOperand (decimal n)
decimal-IsOperand n = digits (decimal n) (decimal-IsDigit n)
  where
    digits : (s : Text) → All IsDigit s → IsOperand s
    digits [] h = tt
    digits (c ∷ s) h = ground arith

join_path-IsOperand : (esp : Text) → IsOperand esp → IsOperand (join_path esp journal_name)
unfolding join_path
join_path-IsOperand [] h = refl
join_path-IsOperand (c ∷ s) h = ground arith

-- Where the options stand in the command line of a resumption.
module _ (j d s r : Text) (rest : List Text) (oj : IsOperand j) (od : IsOperand d) where
  resumed_flag :
      flag
        (codes "--resume"
          ∷ codes "--journal"
          ∷ j
          ∷ codes "--expected-device"
          ∷ d
          ∷ codes "--expected-slot"
          ∷ s
          ∷ rest)
        (codes "--expected-slot")
      ≡ some s
  unfolding flag
  resumed_flag =
      rw (operand_ne j (codes "-expected-slot") oj, operand_ne d (codes "-expected-slot") od) refl

-- Where they stand in the command line of a new transaction.
module _ (d s r : Text) (rest : List Text) (od : IsOperand d) (os : IsOperand s) where
  abbrev fired : List Text
  fired =
      codes "--fire"
      ∷ codes "--device"
      ∷ d
      ∷ codes "--mode"
      ∷ codes "killslot"
      ∷ codes "--slot"
      ∷ s
      ∷ codes "--recovery-slot"
      ∷ r
      ∷ rest

  fired_mode : flag fired (codes "--mode") ≡ some (codes "killslot")
  unfolding flag
  fired_mode = rw (operand_ne d (codes "-mode") od) refl

  fired_slot : flag fired (codes "--slot") ≡ some s
  unfolding flag
  fired_slot = rw (operand_ne d (codes "-slot") od) refl

  fired_recovery : flag fired (codes "--recovery-slot") ≡ some r
  unfolding flag
  fired_recovery =
      rw (operand_ne d (codes "-recovery-slot") od, operand_ne s (codes "-recovery-slot") os) refl

module _ (p : Process) (esp device map : Text) (slot recovery : ℕ) (esp_operand : IsOperand esp)
    (device_operand : IsOperand device) (slot_bound : slot ≤ 31) where
  resumed_slot : expected_slot (erase_arguments p esp (resume device slot recovery map)) ≡ ok slot
  unfolding erase_arguments expected_slot expected_number
  resumed_slot =
      rw
        (
          resumed_flag (join_path esp journal_name) device (decimal slot) (decimal slot) _
              (join_path-IsOperand esp esp_operand) device_operand,
          parse_uint-decimal u8_max slot (omega arith),
        )
        refl

  fired_choice :
      (recovery_bound : recovery ≤ 31) (other : slot ≢ recovery)
      (daily_file recovery_file : Option Text)
      → parse_mode daily_file recovery_file (erase_arguments p esp (fire device slot recovery map))
        ≡ ok (one_slot daily_file recovery_file slot recovery)
  unfolding erase_arguments parse_mode slot_flag chosen_mode named_mode kept_recovery
  fired_choice recovery_bound other daily_file recovery_file =
      rw
        (
          fired_mode device (decimal slot) (decimal recovery) _ device_operand
              (decimal-IsOperand slot),
          fired_slot device (decimal slot) (decimal recovery) _ device_operand
              (decimal-IsOperand slot),
          fired_recovery device (decimal slot) (decimal recovery) _ device_operand
              (decimal-IsOperand slot),
          parse_uint-decimal u8_max slot (omega arith),
          parse_uint-decimal u8_max recovery (omega arith),
          (validate_mode_slots_iff kill_slot (some slot) (some recovery)).1
              (slot_bound, recovery_bound, other),
        )
        refl

abbrev pub daily_of : EraseRun → ℕ
daily_of (fire device slot recovery map) = slot
daily_of (resume device slot recovery map) = slot

-- What `run` of ds-unlock has made sure of, and that no path could be taken for an option.
abbrev pub IsSane : EraseRun → Type 0
IsSane (fire device slot recovery map) =
    IsOperand device × (slot ≤ 31) × (recovery ≤ 31) × (slot ≢ recovery)
IsSane (resume device slot recovery map) =
    IsOperand device × (slot ≤ 31) × (recovery ≤ 31) × (slot ≢ recovery)

module _ {c : Cryptsetup} (faithful : IsFaithful c) (host : Host) (codec : Codec) (p : Process)
    (esp : Text) (esp_operand : IsOperand esp) (m : ℕ) where
  abbrev Spared : World c → World c → Type 0
  Spared s t = active c t.device m ≡ active c s.device m

  command_spares :
      (r : EraseRun) (s : World c) (w : List Fate)
      → IsSane r
      → m ≢ daily_of r
      → Spared s (final (by_command host codec (erase_arguments p esp r) s w))
  unfolding by_command erase_arguments
  command_spares (fire device slot recovery map) s w h other =
      fire_spares faithful host codec (erase_arguments p esp (fire device slot recovery map)) slot
        recovery s w m
        (fired_choice p esp device map slot recovery esp_operand h.0 h.1 h.2 h.3
          (readable host.daily_slot) (readable host.recovery_slot))
        other
  command_spares (resume device slot recovery map) s w h other =
      resume_spares faithful host codec (erase_arguments p esp (resume device slot recovery map)) s
        w m
        (λ e.
          other (same (sym e ∙ resumed_slot p esp device map slot recovery esp_operand h.0 h.1)))
    where
      same : {a b : ℕ} → ◌≡◌ {A = Result ℕ} (ok a) (ok b) → a ≡ b
      same k = cc

  checked_spares :
      (r : Result (Unit {0})) (k : Prog (World c) (Unit {0})) (s : World c) (w : List Fate)
      → Spared s (final (k s w))
      → Spared s (final ((lift (λ _. r) >>= λ _. k) s w))
  unfolding ◌>>=◌ lift
  checked_spares (ok u) k s w h = h
  checked_spares (err e) k s w h = refl

-- Whatever wipe ds-unlock starts, new or resumed, the run of ds-erase with the command line that it
-- builds touches no keyslot but the daily one, however either ends; given two different slots up to
-- 31, a device and a directory that are no options, and that luksKillSlot leaves other slots alone.
pub erase_arguments_spare :
    {c : Cryptsetup} (faithful : IsFaithful c) (host : Host) (codec : Codec) (p : Process)
    (esp : Text) (r : EraseRun) (s : World c) (w : List Fate) (m : ℕ)
    → IsOperand esp
    → IsSane r
    → m ≢ daily_of r
    → active c (final (run host codec (erase_arguments p esp r) s w)).device m ≡ active c s.device m
unfolding run check
erase_arguments_spare faithful host codec p esp r s w m operand sane other =
    checked_spares faithful host codec p esp operand m _
      (by_command host codec (erase_arguments p esp r)) s w
      (command_spares faithful host codec p esp operand m r s w sane other)
