-- ===== src/Erase/Journal.antt =====
-- The journal of ds-erase/src/main.rs and the checks on its fields.
pub mod Checks
use deathstr0ke.Base.{
  ℕ, ◌≡◌, refl, Bool, true, false, not, ◌&&◌, ◌||◌, List, [], ◌∷◌, Option, none, some, ltb, leb,
  ◌==◌, if◌then◌else◌, length, any, all, Result, ok, err, ◌>>=◌, ◌>>◌, bail_if, expect_some,
  context,
}
use deathstr0ke.Text.{Text, Bytes, codes, text_eq, str_len, as_bytes}
use deathstr0ke.FilePath.{path_starts_with, path_ends_with, is_absolute, file_name, parent}
use deathstr0ke.Core.{journal_name}

abbrev pub journal_version : ℕ
journal_version = 1

pub data Phase : Type 0 where
  prepared backups_handled keyslots_destroyed : Phase

pub data EraseMode : Type 0 where
  kill_slot erase : EraseMode

pub record Journal : Type 0 where
  pub version : ℕ
  pub phase : Phase
  pub device : Text
  pub mode : EraseMode
  pub slot : Option ℕ
  pub recovery_slot : Option ℕ
  pub map_name : Option Text
  pub header_scan : List Text

distinct_slots : ℕ → ℕ → Result (Unit {0})
distinct_slots daily recovery =
    if leb daily 31 && leb recovery 31
    then bail_if (daily == recovery) "daily and recovery slots must be distinct"
    else err "killslot requires distinct --slot and --recovery-slot values in 0..31"

unfoldable pub validate_mode_slots : EraseMode → Option ℕ → Option ℕ → Result (Unit {0})
unfolding distinct_slots
validate_mode_slots kill_slot (some daily) (some recovery) = distinct_slots daily recovery
validate_mode_slots kill_slot (some daily) none =
    err "killslot requires distinct --slot and --recovery-slot values in 0..31"
validate_mode_slots kill_slot none recovery =
    err "killslot requires distinct --slot and --recovery-slot values in 0..31"
validate_mode_slots erase none none = ok tt
validate_mode_slots erase none (some recovery) = err "slot flags are invalid with full erase"
validate_mode_slots erase (some slot) recovery = err "slot flags are invalid with full erase"

abbrev is_empty : Text → Bool
is_empty [] = true
is_empty (c ∷ s) = false

unfoldable pub validate_text_field : Text → Result (Unit {0})
unfolding str_len
validate_text_field value =
    bail_if
      (is_empty value
        || ltb 4096 (str_len value)
        || any (λ c. c == b'\n' || c == b'\r' || c == 0) value)
      "invalid field"

is_map_byte : ℕ → Bool
is_map_byte b =
    (leb b'0' b && leb b b'9')
    || (leb b'a' b && leb b b'z')
    || (leb b'A' b && leb b b'Z')
    || b == b'+'
    || b == b'_'
    || b == b'.'
    || b == b'-'

unfoldable pub validate_map_name : Text → Result (Unit {0})
unfolding is_map_byte as_bytes str_len
validate_map_name name =
    bail_if (is_empty name || ltb 127 (str_len name) || not (all is_map_byte (as_bytes name)))
      "invalid dm-crypt mapping name"

abbrev is_named : Text → Option Text → Bool
is_named name none = false
is_named name (some t) = text_eq t name

unfoldable pub validate_journal_path : Text → Result (Unit {0})
unfolding is_absolute path_ends_with file_name parent
validate_journal_path path = do
  bail_if (not (is_absolute path)) "journal path must be absolute"
  dir ← expect_some "journal has no parent" (parent path)
  bail_if (not (is_named journal_name (file_name path))) "journal filename must be inprogress"
  bail_if (not (path_ends_with dir (codes "deathstroke")))
      "journal must be inside a deathstroke ESP state directory"

-- `fs::canonicalize` is what the file system answers.
module _ (canonicalize : Text → Result Text) where
  check_roots : Text → List Text → Result (Unit {0})
  unfolding path_starts_with
  check_roots dir [] = ok tt
  check_roots dir (root ∷ rest) = do
    resolved ← context "resolve header scan root" (canonicalize root)
    bail_if (not (path_starts_with resolved dir))
        "header scan root must stay inside journal ESP directory"
    check_roots dir rest

  unfoldable pub validate_scan_roots : Text → List Text → Result (Unit {0})
  unfolding check_roots
  validate_scan_roots journal roots = do
    dir ← expect_some "journal has no parent" (parent journal)
    resolved ← context "resolve journal directory" (canonicalize dir)
    check_roots resolved roots

  check_fields : List Text → Result (Unit {0})
  check_fields [] = ok tt
  check_fields (path ∷ rest) = do validate_text_field path; check_fields rest

  check_map : Option Text → Result (Unit {0})
  check_map none = ok tt
  check_map (some name) = validate_map_name name

  -- The checks of `read_journal` behind the decoder.
  unfoldable pub check_journal : Text → Journal → Result Journal
  unfolding validate_mode_slots check_fields validate_scan_roots validate_text_field check_map
  check_journal path j = do
    bail_if (not (j.version == journal_version)) "unsupported journal version"
    validate_mode_slots j.mode j.slot j.recovery_slot
    bail_if (ltb 32 (length j.header_scan)) "too many journal scan roots"
    check_fields j.header_scan
    validate_scan_roots path j.header_scan
    validate_text_field j.device
    check_map j.map_name
    ok j
