-- ===== src/Erase/Arguments.antt =====
-- The command line of ds-erase/src/main.rs: `flag`, `args_multi` and `parse_mode`. `flag` is the same
-- function in ds-unlock/src/main.rs and dsctl/src/main.rs.
pub mod Modes
use deathstr0ke.Base.{
  ℕ, ◌≡◌, refl, Bool, true, false, ◌||◌, List, [], ◌∷◌, Option, none, some, if◌then◌else◌, any,
  String, Result, ok, err, ◌>>=◌, ◌>>◌, bail_if, expect_some, context,
}
use deathstr0ke.Text.{Text, codes, text_eq, trim}
use deathstr0ke.Text.Numbers.{u8_max, parse_uint}
use deathstr0ke.Erase.Journal.{EraseMode, kill_slot, erase, validate_mode_slots}

abbrev head? : List Text → Option Text
head? [] = none
head? (a ∷ rest) = some a

-- The argument behind the first one that is `name`.
unfoldable pub flag : List Text → Text → Option Text
flag [] name = none
flag (a ∷ rest) name = let later = flag rest name in if text_eq a name then head? rest else later

-- All values of a repeatable flag. A value is passed over when the next name is looked for.
unfoldable pub args_multi : List Text → Text → List Text
args_multi [] name = []
args_multi (a ∷ []) name = []
args_multi (a ∷ v ∷ rest) name =
    let taken = v ∷ args_multi rest name in
    let later = args_multi (v ∷ rest) name in if text_eq a name then taken else later

unfoldable pub has_flag : List Text → Text → Bool
has_flag args name = any (λ a. text_eq a name) args

-- `flag(…).map(|s| s.parse::<u8>()…).transpose()`
unfoldable pub slot_flag : Option Text → String → Result (Option ℕ)
unfolding parse_uint
slot_flag none message = ok none
slot_flag (some s) message = do n ← expect_some message (parse_uint u8_max s); ok (some n)

-- The file of a recorded slot in the state directory, if it can be read.
unfoldable pub read_recorded_slot : Option Text → Result ℕ
unfolding parse_uint trim
read_recorded_slot none = err "protected slot is unavailable"
read_recorded_slot (some s) = expect_some "invalid protected slot" (parse_uint u8_max (trim s))

abbrev is_some {ℓ} : {A : Type ℓ} → Option A → Bool
is_some none = false
is_some (some a) = true

-- `daily` and `recovery` are the files daily.slot and recovery.slot.
module _ (daily recovery : Option Text) where
  abbrev pub Choice : Type 0
  Choice = record { mode : EraseMode; slot : Option ℕ; recovery_slot : Option ℕ }

  recorded_mode : Bool → Result Choice
  unfolding read_recorded_slot validate_mode_slots
  recorded_mode flags_given = do
    bail_if flags_given "slot flags require an explicit --mode killslot"
    d ← read_recorded_slot daily
    r ← read_recorded_slot recovery
    validate_mode_slots kill_slot (some d) (some r)
    ok (record { mode = kill_slot; slot = some d; recovery_slot = some r })

  unfoldable pub named_mode : List Text → Text → Result EraseMode
  unfolding has_flag
  named_mode args name =
      if text_eq name (codes "killslot")
      then ok kill_slot
      else if text_eq name (codes "erase")
      then (if has_flag args (codes "--destroy-recovery")
          then ok erase
          else err
              "full erase also destroys recovery; repeat with --destroy-recovery to acknowledge")
      else err "unknown --mode"

  unfoldable pub kept_recovery : EraseMode → Option ℕ → Result (Option ℕ)
  unfolding read_recorded_slot
  kept_recovery kill_slot (some r) = ok (some r)
  kept_recovery kill_slot none = do r ← read_recorded_slot recovery; ok (some r)
  kept_recovery erase r = ok r

  unfoldable pub chosen_mode : List Text → Option Text → Option ℕ → Option ℕ → Result Choice
  unfolding recorded_mode named_mode kept_recovery validate_mode_slots
  chosen_mode args none slot r = recorded_mode (is_some slot || is_some r)
  chosen_mode args (some name) slot r = do
    mode ← named_mode args name
    kept ← kept_recovery mode r
    validate_mode_slots mode slot kept
    ok (record { mode = mode; slot = slot; recovery_slot = kept })

  unfoldable pub parse_mode : List Text → Result Choice
  unfolding slot_flag chosen_mode flag
  parse_mode args = do
    slot ← slot_flag (flag args (codes "--slot")) "bad --slot"
    r ← slot_flag (flag args (codes "--recovery-slot")) "bad --recovery-slot"
    chosen_mode args (flag args (codes "--mode")) slot r
