-- ===== src/Dsctl/Deadman.antt =====
-- The dead-man switch of dsctl/src/main.rs: `deadman`, `checkin` and `deadman_check`.
pub mod Stored
pub mod Window
use deathstr0ke.Base.{
  ℕ, ◌+◌, ◌*◌, ◌%◌, ◌^◌, Bool, true, false, not, ◌||◌, List, [], ◌∷◌, ◌++◌, Option, none, some, ltb,
  ◌==◌, Result, ok, err, if◌then◌else◌, is_ok, bail_if, expect_some, String,
}
use deathstr0ke.Text.{Text, codes, text_eq, trim, trim_start_matches, strip_prefix}
use deathstr0ke.Text.Lines.{lines}
use deathstr0ke.Text.Numbers.{u64_max, decimal, parse_uint}
use deathstr0ke.Files.{File, missing, text, readable}
use deathstr0ke.Effects.{Prog, ◌>>=◌, ◌>>◌, pure, lift, act, query, attempt}
use deathstr0ke.Erase.Host.{configured_target}
use deathstr0ke.Dsctl.Machine.{Machine, require_root}

-- The state file, and the devices that ds-erase was started on.
pub record Watch : Type 0 where
  pub deadman_state : File
  pub fired : List Text

unfoldable pub is_equals : ℕ → Bool
is_equals c = c == b'='

unfoldable pub value_of : Option Text → Option ℕ
value_of none = none
value_of (some v) = parse_uint u64_max (trim (trim_start_matches is_equals (trim v)))

-- The first line with the key and a number.
unfoldable pub find_value : Text → List Text → Option ℕ
find_value key [] = none
find_value key (line ∷ rest) = elim (value_of (strip_prefix key line)) [
  | some n ↦ some n
  | none ↦ find_value key rest
]

unfoldable pub pair_of : Option ℕ → Option ℕ → Option (ℕ × ℕ)
pair_of (some window) (some last) = some (window, last)
pair_of (some window) none = none
pair_of none last = none

unfoldable pub deadman_of : Option Text → Option (ℕ × ℕ)
deadman_of none = none
deadman_of (some s) =
    pair_of (find_value (codes "window_secs") (lines s))
      (find_value (codes "last_checkin") (lines s))

unfoldable pub read_deadman : File → Option (ℕ × ℕ)
read_deadman f = deadman_of (readable f)

unfoldable pub deadman_text : ℕ → ℕ → Text
deadman_text window last =
    (codes "window_secs=" ++ decimal window)
    ++ b'\n' ∷ ((codes "last_checkin=" ++ decimal last) ++ b'\n' ∷ [])

unfoldable pub write_deadman : ℕ → ℕ → Prog Watch (Unit {0})
write_deadman window last =
    act "write deadman" (λ s. record s { deadman_state = text (deadman_text window last) })

-- The product of the hours wraps at 64 bits, as in a release build.
unfoldable pub window_of : ℕ → ℕ
window_of hours = (hours * 3600) % 2 ^ 64

set_window : ℕ → Text → Prog Watch (Unit {0})
unfolding parse_uint write_deadman window_of
set_window now h = do
  hours ← lift (λ s. expect_some "deadman <hours> | off" (parse_uint u64_max h))
  lift (λ s. bail_if (hours == 0) "window must be > 0 hours")
  query "create state dir" (λ s. ok tt)
  write_deadman (window_of hours) now

-- Without an argument, a report is printed.
by_argument : ℕ → List Text → Prog Watch (Unit {0})
unfolding set_window
by_argument now [] = pure tt
by_argument now (name ∷ []) = pure tt
by_argument now (name ∷ h ∷ rest) =
    if text_eq h (codes "off") || text_eq h (codes "disable")
    then act "remove deadman" (λ s. record s { deadman_state = missing })
    else set_window now h

unfoldable pub deadman : Machine → ℕ → List Text → Prog Watch (Unit {0})
unfolding require_root by_argument
deadman host now args = do lift (λ s. require_root host); by_argument now args

unfoldable pub reset_clock : ℕ → Option (ℕ × ℕ) → Prog Watch (Unit {0})
reset_clock now none = pure tt
reset_clock now (some (window, last)) = write_deadman window now

unfoldable pub checkin : Machine → ℕ → Prog Watch (Unit {0})
unfolding require_root reset_clock
checkin host now = do
  lift (λ s. require_root host)
  found ← lift (λ s. ok (read_deadman s.deadman_state))
  reset_clock now found

-- The sum wraps at 64 bits, as in a release build.
unfoldable pub overdue : ℕ → Option (ℕ × ℕ) → Bool
overdue now none = false
overdue now (some (window, last)) = ltb ((last + window) % 2 ^ 64) now

fire_target : Machine → Prog Watch ℕ
unfolding configured_target
fire_target host = do
  device ← lift (λ s.
      expect_some "no target device configured" (configured_target (readable host.target_device)))
  status ← attempt (act "ds-erase --fire" (λ s. record s { fired = device ∷ s.fired }))
  pure (if is_ok status then 2 else 1)

unfoldable pub fire_if : Machine → Bool → Prog Watch ℕ
unfolding fire_target
fire_if host true = fire_target host
fire_if host false = pure 0

-- The status that the process ends with.
unfoldable pub deadman_check : Machine → ℕ → Prog Watch ℕ
unfolding fire_if
deadman_check host now = do
  found ← lift (λ s. ok (read_deadman s.deadman_state))
  fire_if host (overdue now found)
