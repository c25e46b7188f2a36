-- ===== src/Core/Attempts.antt =====
-- The counter of consecutive failures of ds-core/src/lib.rs, in its one file.
pub mod Counting
use deathstr0ke.Base.{
  ℕ, ◌+◌, ◌-◌, ◌≡◌, refl, Bool, true, false, List, [], ◌∷◌, ◌++◌, Option, none, some, ltb, leb,
  if◌then◌else◌, Result, ok, err, expect_some,
}
use deathstr0ke.Base
use deathstr0ke.Text.{Text, codes}
use deathstr0ke.Text.Lines.{split_whitespace}
use deathstr0ke.Text.Numbers.{u32_max, u64_max, decimal, parse_uint}
use deathstr0ke.Files.{File, missing, unreadable, text}
use deathstr0ke.Effects.{Prog, ◌>>=◌, ◌>>◌, pure, lift, act}

pub record Attempts : Type 0 where
  pub count : ℕ
  pub last_fail : ℕ

abbrev pub no_attempts : Attempts
no_attempts = record { count = 0; last_fail = 0 }

no_more : Attempts → List Text → Result Attempts
no_more a [] = ok a
no_more a (_ ∷ _) = err "attempt counter has trailing fields"

parse_timestamp : ℕ → List Text → Result Attempts
unfolding no_more parse_uint
parse_timestamp count [] = err "attempt counter missing timestamp"
parse_timestamp count (t ∷ rest) =
    Base.◌>>=◌ (expect_some "bad attempt timestamp" (parse_uint u64_max t))
      λ last_fail. no_more (record { count = count; last_fail = last_fail }) rest

parse_fields : List Text → Result Attempts
unfolding parse_timestamp parse_uint
parse_fields [] = err "attempt counter missing count"
parse_fields (c ∷ rest) =
    Base.◌>>=◌ (expect_some "bad attempt count" (parse_uint u32_max c))
      λ count. parse_timestamp count rest

unfoldable pub read_attempts : File → Result Attempts
unfolding parse_fields split_whitespace
read_attempts missing = ok no_attempts
read_attempts unreadable = err "read attempt counter"
read_attempts (text s) = parse_fields (split_whitespace s)

-- `saturating_add(1)` in `u32`.
abbrev pub saturating_suc : ℕ → ℕ
saturating_suc n = if ltb n u32_max then n + 1 else u32_max

unfoldable pub attempts_text : Attempts → Text
unfolding decimal
attempts_text a = decimal a.count ++ b' ' ∷ (decimal a.last_fail ++ b'\n' ∷ [])

write_attempts : Attempts → Prog File (Unit {0})
unfolding attempts_text
write_attempts a = act "write attempt counter" (λ f. text (attempts_text a))

-- `now` is the clock in seconds.
unfoldable pub record_failure : ℕ → Prog File ℕ
unfolding write_attempts read_attempts
record_failure now = do
  a ← lift read_attempts
  let a' : Attempts = record { count = saturating_suc a.count; last_fail = now }
  write_attempts a'
  pure a'.count

unfoldable pub reset_attempts : Prog File (Unit {0})
reset_attempts = act "remove attempt counter" (λ f. missing)

-- The seconds that are left of the cooldown; a clock before the last failure counts as none elapsed.
remaining : ℕ → ℕ → ℕ → Attempts → Option ℕ
remaining now lockout_at cooldown a =
    if ltb a.count lockout_at
    then none
    else if ltb (now - a.last_fail) cooldown
    then some (cooldown - (now - a.last_fail))
    else none

unfoldable pub lockout_remaining : ℕ → ℕ → ℕ → File → Result (Option ℕ)
unfolding read_attempts remaining
lockout_remaining now lockout_at cooldown f =
    Base.◌>>=◌ (read_attempts f) λ a. ok (remaining now lockout_at cooldown a)

unfoldable pub should_wipe : ℕ → ℕ → Bool
should_wipe count wipe_at = leb wipe_at count

unfoldable pub crossed_lockout : ℕ → ℕ → Bool
crossed_lockout count lockout_at = leb lockout_at count
