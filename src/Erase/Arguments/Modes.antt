-- ===== src/Erase/Arguments/Modes.antt =====
-- What a command line of ds-erase can choose.
use deathstr0ke.Base.{
  ℕ, ◌≡◌, Bool, true, List, Option, none, some, Result, ok, err, ◌>>=◌, arith, Result-cases, inl,
  inr, String,
}
use deathstr0ke.Text.{Text, codes}
use deathstr0ke.Erase.Journal.{EraseMode, erase, validate_mode_slots}
use deathstr0ke.Erase.Journal.Checks.{Fits, validate_mode_slots_iff}
use deathstr0ke.Erase.Arguments.{
  flag, has_flag, slot_flag, Choice, recorded_mode, named_mode, kept_recovery, chosen_mode,
  parse_mode,
}

module _ (daily recovery : Option Text) (args : List Text) where
  -- The slots of the choice pass the checks, and all slots are chosen only by the flag for it.
  abbrev pub Deliberate : Choice daily recovery → Type 0
  Deliberate c =
      (validate_mode_slots c.mode c.slot c.recovery_slot ≡ ok tt)
      × (c.mode ≡ erase → has_flag args (codes "--destroy-recovery") ≡ true)

  named_mode_sound :
      (name : Text) (mode : EraseMode)
      → named_mode daily recovery args name ≡ ok mode
      → mode ≡ erase
      → has_flag args (codes "--destroy-recovery") ≡ true
  unfolding named_mode
  named_mode_sound name mode e k = ground arith

  recorded_mode_sound :
      (given : Bool) (c : Choice daily recovery)
      → recorded_mode daily recovery given ≡ ok c
      → Deliberate c
  unfolding recorded_mode
  recorded_mode_sound given c e = (ground arith, ground arith)

  -- `named_mode` has been read.
  named_sound :
      (mode : EraseMode) (slot r : Option ℕ) (c : Choice daily recovery)
      → (mode ≡ erase → has_flag args (codes "--destroy-recovery") ≡ true)
      → (kept_recovery daily recovery mode r >>= λ kept. validate_mode_slots mode slot kept >>= λ _.
          ok (record { mode = mode; slot = slot; recovery_slot = kept }))
        ≡ ok c
      → Deliberate c
  named_sound mode slot r c h e = (ground arith, ground arith)

  chosen_mode_sound :
      (name : Option Text) (slot r : Option ℕ) (c : Choice daily recovery)
      → chosen_mode daily recovery args name slot r ≡ ok c
      → Deliberate c
  unfolding chosen_mode
  chosen_mode_sound none slot r c e = recorded_mode_sound _ c e
  chosen_mode_sound (some name) slot r c e =
      elim (Result-cases (named_mode daily recovery args name)) [
        | inl known ↦
            named_sound known.0 slot r c (named_mode_sound name known.0 known.1) (rw known.1 at e)
        | inr unknown ↦ absurd (refused (rw unknown.1 at e))
      ]
    where
      refused : {x : String} → ◌≡◌ {A = Result (Choice daily recovery)} (err x) (ok c) → ⊥
      refused h = cc

-- What ds-erase takes from a command line always fits the mode, whether it is named there or comes
-- from the recorded slots, and every slot is destroyed only where `--destroy-recovery` is given.
pub parse_mode_deliberate :
    (daily recovery : Option Text) (args : List Text) (c : Choice daily recovery)
    → parse_mode daily recovery args ≡ ok c
    → Fits c.mode c.slot c.recovery_slot
      × (c.mode ≡ erase → has_flag args (codes "--destroy-recovery") ≡ true)
unfolding parse_mode
parse_mode_deliberate daily recovery args c e =
    elim (Result-cases (slot_flag (flag args (codes "--slot")) "bad --slot")) [
      | inl slot ↦
          elim (Result-cases
            (slot_flag (flag args (codes "--recovery-slot")) "bad --recovery-slot")) [
              | inl r ↦ checked (
                  chosen_mode_sound daily recovery args (flag args (codes "--mode")) slot.0 r.0 c
                    (rw (slot.1, r.1) at e))
              | inr bad ↦ absurd (refused (rw (slot.1, bad.1) at e))
            ]
      | inr bad ↦ absurd (refused (rw bad.1 at e))
    ]
  where
    refused : {x : String} → ◌≡◌ {A = Result (Choice daily recovery)} (err x) (ok c) → ⊥
    refused h = cc

    checked :
        Deliberate daily recovery args c
        → Fits c.mode c.slot c.recovery_slot
          × (c.mode ≡ erase → has_flag args (codes "--destroy-recovery") ≡ true)
    checked h = ((validate_mode_slots_iff c.mode c.slot c.recovery_slot).0 h.0, h.1)
