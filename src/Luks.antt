-- ===== src/Luks.antt =====
-- LUKS keyslots as the crates see them: `active_slot_set` of ds-erase/src/main.rs and the same loop
-- in `active_keyslots` of dsctl/src/main.rs, and what they rely on of `cryptsetup`.
pub mod Dump
pub mod Printed
use deathstr0ke.Base.{
  ℕ, ◌≡◌, ◌≢◌, refl, Bool, true, false, ◌||◌, ◌&&◌, List, [], ◌∷◌, Option, none, some, ltb, leb,
  ◌==◌, ◌-◌, if◌then◌else◌,
}
use deathstr0ke.Text.{Text, codes, text_eq, trim, trim_start, split_once, strip_prefix, starts_with}
use deathstr0ke.Text.Lines.{lines}
use deathstr0ke.Text.Numbers.{u8_max, parse_uint}

-- `BTreeSet<u8>` as its ascending list.
unfoldable pub insert : ℕ → List ℕ → List ℕ
insert n [] = n ∷ []
insert n (m ∷ ms) =
    let rest = insert n ms in if n == m then m ∷ ms else if ltb n m then n ∷ m ∷ ms else m ∷ rest

unfoldable pub contains : List ℕ → ℕ → Bool
contains [] n = false
contains (m ∷ ms) n = n == m || contains ms n

insert_some : Option ℕ → List ℕ → List ℕ
unfolding insert
insert_some none ms = ms
insert_some (some n) ms = insert n ms

to_upper : ℕ → ℕ
to_upper c = if leb b'a' c && leb c b'z' then c - 32 else c

-- `eq_ignore_ascii_case`
same_word : Text → Text → Bool
unfolding to_upper
same_word [] [] = true
same_word [] (d ∷ t) = false
same_word (c ∷ s) [] = false
same_word (c ∷ s) (d ∷ t) = to_upper c == to_upper d && same_word s t

-- The slot of a LUKS1 line, "Key Slot <n>: ENABLED".
slot_of_state : Option (Text × Text) → Option ℕ
unfolding same_word parse_uint trim
slot_of_state none = none
slot_of_state (some (number, state)) =
    if same_word (trim state) (codes "ENABLED") then parse_uint u8_max (trim number) else none

luks1_slot : Option Text → Option ℕ
unfolding slot_of_state split_once
luks1_slot none = none
luks1_slot (some rest) = slot_of_state (split_once b':' rest)

-- The slot of a LUKS2 line, "<n>: luks2", or else of a LUKS1 line.
slot_of_pair : Text → Option (Text × Text) → Option ℕ
unfolding luks1_slot strip_prefix starts_with trim_start
slot_of_pair trimmed none = luks1_slot (strip_prefix (codes "Key Slot ") trimmed)
slot_of_pair trimmed (some (number, kind)) =
    if starts_with (codes "luks2") (trim_start kind)
    then parse_uint u8_max (trim number)
    else luks1_slot (strip_prefix (codes "Key Slot ") trimmed)

unfoldable pub line_slot : Text → Option ℕ
unfolding slot_of_pair
line_slot line = let trimmed = trim_start line in slot_of_pair trimmed (split_once b':' trimmed)

collect_slots : List Text → List ℕ → List ℕ
unfolding insert_some line_slot
collect_slots [] slots = slots
collect_slots (line ∷ rest) slots = collect_slots rest (insert_some (line_slot line) slots)

-- The active keyslots that a `luksDump` lists.
unfoldable pub slots_of_dump : Text → List ℕ
unfolding collect_slots lines
slots_of_dump dump = collect_slots (lines dump) []

-- The program `cryptsetup`: a device's `luksDump`, and what its commands make of the device. A
-- `luksErase` that reports an error may have destroyed a part of the slots.
pub record Cryptsetup : Type 1 where
  pub Device : Type 0
  pub luks_dump : Device → Text
  pub luks_kill_slot : ℕ → Device → Device
  pub luks_erase : Device → Device
  pub luks_erase_partly : Device → Device

-- The slots that are active, by the dump.
abbrev pub active : (c : Cryptsetup) → c.Device → ℕ → Bool
active c d n = contains (slots_of_dump (c.luks_dump d)) n

-- What cryptsetup's manual says of the two commands.
pub record IsFaithful (c : Cryptsetup) : Type 0 where
  pub kill_self : (d : c.Device) (n : ℕ) → active c (c.luks_kill_slot n d) n ≡ false
  pub kill_other :
      (d : c.Device) (n m : ℕ) → m ≢ n → active c (c.luks_kill_slot n d) m ≡ active c d m
  pub erase_none : (d : c.Device) → slots_of_dump (c.luks_dump (c.luks_erase d)) ≡ []

both_formats :
    slots_of_dump (
      codes
        "Keyslots:\n  0: luks2\n\tKey:        512 bits\n  3: luks2\nTokens:\n  0: systemd-tpm2\n")
    ≡ 0 ∷ 3 ∷ []
unfolding slots_of_dump
both_formats = refl

luks1_dump :
    slots_of_dump
      (codes "Key Slot 0: ENABLED\n\tIterations: 1\nKey Slot 1: DISABLED\nKey Slot 7: ENABLED\n")
    ≡ 0 ∷ 7 ∷ []
unfolding slots_of_dump
luks1_dump = refl
