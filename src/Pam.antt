-- ===== src/Pam.antt =====
-- pam_ds/src/lib.rs, the PAM module: `authenticate`, its three modes, and `fire`.
pub mod Modes
pub mod Escalation
use deathstr0ke.Base.{
  ℕ, ◌+◌, ◌||◌, Bool, true, false, ltb, List, [], ◌∷◌, ◌++◌, Option, none, some, if◌then◌else◌,
  Result, ok, err, String, leb,
}
use deathstr0ke.Text.{Text, Bytes, codes, text_eq}
use deathstr0ke.Text.Lines.{split_whitespace}
use deathstr0ke.Text.Numbers.{u32_max, u64_max, parse_uint}
use deathstr0ke.Files.{File, read_to_string}
use deathstr0ke.Effects.{Prog, ◌>>=◌, ◌>>◌, pure, lift, modify, act, query, attempt, zoom, when}
use deathstr0ke.Core.{Process, test_mode}
use deathstr0ke.Core.Attempts.{record_failure, reset_attempts, should_wipe, crossed_lockout}
use deathstr0ke.Core.Verifier.{DuressHash, Crypto, parse, verify}

-- The codes that the module returns.
pub data PamError : Type 0 where
  ignore auth_err : PamError

-- What the module acts on: whether /etc/arxos/deathstroke/ARMED exists, the verifier's file, the
-- attempt counter, the erase actors that were launched with their arguments, and the seconds that
-- were slept.
pub record Machine : Type 0 where
  pub armed_marker : Bool
  pub duress_hash : File
  pub attempts : File
  pub launched : List (List Text)
  pub slept : ℕ

-- A number of the environment, in test mode only.
number_or : ℕ → ℕ → Option Text → ℕ
unfolding parse_uint
number_or max d none = d
number_or max d (some v) = elim (parse_uint max v) [ none ↦ d | some n ↦ n ]

unfoldable pub test_number : Process → ℕ → String → ℕ → ℕ
unfolding number_or test_mode
test_number p max name d = if test_mode p then number_or max d (p.var name) else d

unfoldable pub lockout_at : Process → ℕ
unfolding test_number
lockout_at p = test_number p u32_max "DS_LOCKOUT_AT" 3

unfoldable pub wipe_at : Process → ℕ
unfolding test_number
wipe_at p = test_number p u32_max "DS_WIPE_AT" 5

unfoldable pub armed : Process → Machine → Bool
unfolding test_mode
armed p m = m.armed_marker || test_mode p

abbrev pub erase_command : List Text
erase_command = codes "/usr/lib/arxos/deathstroke/ds-erase" ∷ codes "--fire" ∷ []

-- The command of the environment has no words: nothing is launched.
command_of : List Text → Option (List Text)
command_of [] = none
command_of (w ∷ ws) = some (w ∷ ws)

chosen_command : Bool → Option Text → Option (List Text)
unfolding command_of split_whitespace
chosen_command false cmd = some erase_command
chosen_command true none = some erase_command
chosen_command true (some cmd) = command_of (split_whitespace cmd)

-- A launch that fails is reported and forgotten.
launch : Option (List Text) → Prog Machine (Unit {0})
launch none = pure tt
launch (some command) = do
  ignored ← attempt (act "spawn" (λ (m : Machine). record m { launched = command ∷ m.launched }))
  pure tt

unfoldable pub fire : Process → Prog Machine (Unit {0})
unfolding chosen_command launch test_mode
fire p = launch (chosen_command (test_mode p) (p.var "DS_FIRE_CMD"))

on_attempts : {A : Type 0} → Prog File A → Prog Machine A
on_attempts m = zoom (λ (s : Machine). s.attempts) (λ s f. record s { attempts = f }) m

module _ (p : Process) (now : ℕ) where
  warn_and_pace : Bool → Prog Machine (Unit {0})
  unfolding test_number
  warn_and_pace true =
      let delay = test_number p u64_max "DS_LOCKOUT_DELAY" 10 in
      when (ltb 0 delay) (modify (λ m. record m { slept = m.slept + delay }))
  warn_and_pace false = pure tt

  react : ℕ → Prog Machine (Unit {0})
  unfolding fire warn_and_pace should_wipe crossed_lockout wipe_at lockout_at
  react count =
      if should_wipe count (wipe_at p)
      then fire p
      else warn_and_pace (crossed_lockout count (lockout_at p))

  answer_failure : Result ℕ → Prog Machine PamError
  unfolding react
  answer_failure (err e) = pure auth_err
  answer_failure (ok count) = do react count; pure auth_err

  unfoldable pub on_authfail : Prog Machine PamError
  unfolding on_attempts record_failure answer_failure
  on_authfail = do result ← attempt (on_attempts (record_failure now)); answer_failure result

answer_reset : Result (Unit {0}) → PamError
answer_reset (ok _) = ignore
answer_reset (err e) = auth_err

unfoldable pub on_authsucc : Prog Machine PamError
unfolding on_attempts reset_attempts answer_reset
on_authsucc = do result ← attempt (on_attempts reset_attempts); pure (answer_reset result)

-- `authtok` is what `get_authtok` gives: a token, or none.
module _ (p : Process) (crypto : Crypto) (authtok : Option Bytes) where
  answer_match : Result Bool → Prog Machine PamError
  unfolding fire
  answer_match (ok true) = do fire p; pure auth_err
  answer_match (ok false) = pure ignore
  answer_match (err e) = pure auth_err

  compare_token : DuressHash → Option Bytes → Prog Machine PamError
  unfolding answer_match verify
  compare_token h none = pure auth_err
  compare_token h (some token) = answer_match (verify crypto h token)

  with_verifier : Result DuressHash → Prog Machine PamError
  unfolding compare_token
  with_verifier (err e) = pure auth_err
  with_verifier (ok h) = compare_token h authtok

  stored_verifier : Result Text → Result DuressHash
  unfolding parse
  stored_verifier (err e) = err e
  stored_verifier (ok s) = parse s

  unfoldable pub preauth_and_duress : Prog Machine PamError
  unfolding with_verifier stored_verifier
  preauth_and_duress = do
    stored ← attempt (
        query "armed verifier unreadable"
          (λ (m : Machine). read_to_string "armed verifier unreadable" m.duress_hash))
    with_verifier (stored_verifier stored)

pub data Mode : Type 0 where
  authfail authsucc preauth : Mode

-- The first argument of the PAM line.
unfoldable pub mode_of : List Text → Mode
mode_of [] = preauth
mode_of (a ∷ rest) =
    if text_eq a (codes "authfail")
    then authfail
    else if text_eq a (codes "authsucc")
    then authsucc
    else preauth

module _ (p : Process) (crypto : Crypto) (authtok : Option Bytes) (now : ℕ) where
  run_mode : Mode → Prog Machine PamError
  unfolding on_authfail on_authsucc preauth_and_duress
  run_mode authfail = on_authfail p now
  run_mode authsucc = on_authsucc
  run_mode preauth = preauth_and_duress p crypto authtok

  when_armed : Mode → Bool → Prog Machine PamError
  unfolding run_mode
  when_armed mode false = pure ignore
  when_armed mode true = run_mode mode

  unfoldable pub authenticate : List Text → Prog Machine PamError
  unfolding armed mode_of when_armed
  authenticate args = do is_armed ← lift (λ m. ok (armed p m)); when_armed (mode_of args) is_armed
