-- ===== src/Pam/Escalation.antt =====
-- How failed logins escalate: `on_authfail` and `on_authsucc`.
use deathstr0ke.Base.{
  ℕ, ◌+◌, ◌-◌, ◌≤◌, ◌<◌, ◌≡◌, refl, ap, ◌∙◌, false, List, [], ◌∷◌, leb, if◌then◌else◌, length, All,
  ok, arith,
}
use deathstr0ke.Text.Numbers.{u32_max, u64_max}
use deathstr0ke.Files.{text}
use deathstr0ke.Effects.{done, final, pure, ◌>>=◌, modify, act_half, attempt, when}
use deathstr0ke.Effects.Runs.{Comes, >>=-Comes, attempt-Comes, zoom-Comes, pure-Comes}
use deathstr0ke.Core.{Process, test_mode}
use deathstr0ke.Core.Attempts.{
  Attempts, read_attempts, should_wipe, crossed_lockout, saturating_suc, attempts_text,
}
use deathstr0ke.Core.Attempts.Counting.{read_attempts-text, bumped, record_failure-Comes}
use deathstr0ke.Pam.{
  auth_err, Machine, fire, chosen_command, launch, erase_command, on_authfail, answer_failure,
  react, warn_and_pace, on_attempts, lockout_at, wipe_at, test_number,
}

module _ (p : Process) (production : test_mode p ≡ false) where
  thresholds : (wipe_at p ≡ 5) × (lockout_at p ≡ 3)
  unfolding wipe_at lockout_at test_number
  thresholds = (rw production refl, rw production refl)

  -- What a count leads to: nothing, a pause of ten seconds, or the erase actor.
  abbrev pub consequence : ℕ → Machine → Machine
  consequence count m =
      if leb 5 count
      then record m { launched = erase_command ∷ m.launched }
      else if leb 3 count
      then record m { slept = m.slept + 10 }
      else m

  reacted :
      (now count : ℕ) (m : Machine)
      → Comes (react p now count) m [] (done tt (consequence count m) [])
  unfolding react should_wipe crossed_lockout warn_and_pace when modify fire launch chosen_command
      ◌>>=◌ attempt act_half pure wipe_at lockout_at test_number
  reacted now count m = record { run = rw production (ground arith) }

  -- The machine behind one failed login from the counter `a`.
  abbrev pub after_failure : ℕ → Attempts → Machine → Machine
  after_failure now a m =
      consequence (saturating_suc a.count)
        (record m { attempts = text (attempts_text (bumped now a)) })

  answered :
      (now count : ℕ) (m : Machine)
      → Comes (answer_failure p now (ok count)) m [] (done auth_err (consequence count m) [])
  unfolding answer_failure
  answered now count m = >>=-Comes _ (reacted now count m) (pure-Comes auth_err)

  -- Outside test mode, with a counter that can be read and where no effect fails, a failed login is
  -- denied and its count is on disk;
  -- a count of three or four slows it down by ten seconds, and from five on the erase actor is
  -- launched.
  pub authfail_escalates :
      (now : ℕ) (a : Attempts) (m : Machine)
      → read_attempts m.attempts ≡ ok a
      → on_authfail p now m [] ≡ done auth_err (after_failure now a m) []
  unfolding on_authfail on_attempts
  authfail_escalates now a m h =
      (>>=-Comes _ (attempt-Comes (zoom-Comes _ _ m (record_failure-Comes now a m.attempts h)))
        (answered now _ _)).run

-- The machine behind failed logins at the given times.
unfoldable pub after_failures : Process → List ℕ → Machine → Machine
unfolding on_authfail
after_failures p [] m = m
after_failures p (now ∷ rest) m = after_failures p rest (final (on_authfail p now m []))

module _ (p : Process) (production : test_mode p ≡ false) where
  launched_by :
      (count : ℕ) (m : Machine)
      → length (consequence p production count m).launched
        ≡ length m.launched + (if leb 5 count then 1 else 0)
  launched_by count m = ground arith

  counter_kept :
      (count : ℕ) (m : Machine) → (consequence p production count m).attempts ≡ m.attempts
  counter_kept count m = ground arith

  -- One failure from a counter that is not full.
  launched_next :
      (now : ℕ) (a : Attempts) (m : Machine)
      → read_attempts m.attempts ≡ ok a
      → a.count < u32_max
      → length (final (on_authfail p now m [])).launched + (a.count - 4)
        ≡ length m.launched + ((a.count + 1) - 4)
  launched_next now a m h k =
      rw (authfail_escalates p production now a m h, launched_by (saturating_suc a.count) _)
        (ground arith)

  counter_next :
      (now : ℕ) (a : Attempts) (m : Machine)
      → read_attempts m.attempts ≡ ok a
      → a.count < u32_max
      → now ≤ u64_max
      → read_attempts (final (on_authfail p now m [])).attempts
        ≡ ok (record { count = a.count + 1; last_fail = now })
  counter_next now a m h k l =
      rw (authfail_escalates p production now a m h, counter_kept (saturating_suc a.count) _)
        (read_attempts-text (bumped now a) (ground arith) l
          ∙ ap (λ c. ok (record { count = c; last_fail = now })) (ground arith))

  -- Outside test mode and where no effect fails, consecutive failed logins launch the erase actor once
  -- for each failure behind the fourth, counted from what the counter's file says at the start, as
  -- long as the count stays within u32 and the clock within u64.
  pub failures_launch :
      (times : List ℕ) (a : Attempts) (m : Machine)
      → read_attempts m.attempts ≡ ok a
      → a.count + length times ≤ u32_max
      → All (λ t. t ≤ u64_max) times
      → length (after_failures p times m).launched + (a.count - 4)
        ≡ length m.launched + ((a.count + length times) - 4)
  unfolding after_failures
  failures_launch [] a m h k l = omega arith
  failures_launch (now ∷ rest) a m h k l =
      let next = final (on_authfail p now m []) in
      let later =
        failures_launch rest (record { count = a.count + 1; last_fail = now }) next
          (counter_next now a m h (omega arith) l.0) (omega arith) l.1 in
      let one = launched_next now a m h (omega arith) in omega arith
