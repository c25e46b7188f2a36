-- ===== src/Core/Attempts/Counting.antt =====
-- How the counter counts.
use deathstr0ke.Base.{
  ℕ, ◌+◌, ◌≤◌, ◌<◌, ◌≡◌, refl, ◌∙◌, ap, arith, true, List, [], ◌∷◌, some, ok, err, All, ◌⊎◌, inl,
  inr, ◌↔◌, String,
}
use deathstr0ke.Text.{Text, is_whitespace}
use deathstr0ke.Text.Laws.{NoSpace}
use deathstr0ke.Text.Lines.{split_whitespace}
use deathstr0ke.Text.Lines.Laws.{split_whitespace-append}
use deathstr0ke.Text.Numbers.{u32_max, u64_max, decimal}
use deathstr0ke.Text.Numbers.Decimal.{IsDigit, decimal-IsDigit, decimal-cons, parse_uint-decimal}
use deathstr0ke.Files.{File, text}
use deathstr0ke.Effects.{Fate, failed, done, lift, ◌>>=◌}
use deathstr0ke.Effects.Laws.{Triple, Ends, >>=-Triple, lift-Triple, act_half-Triple, pure-Triple}
use deathstr0ke.Effects.Runs.{Comes, >>=-Comes, lift-Comes, act_half-Comes, pure-Comes}
use deathstr0ke.Core.Attempts.{
  Attempts, parse_fields, parse_timestamp, no_more, read_attempts, attempts_text, saturating_suc,
  record_failure, remaining, lockout_remaining,
}

IsDigit-space : (s : Text) → All IsDigit s → NoSpace s
unfolding is_whitespace
IsDigit-space [] h = tt
IsDigit-space (c ∷ s) h = (ground arith, IsDigit-space s h.1)

decimal-NoSpace : (n : ℕ) → NoSpace (decimal n)
decimal-NoSpace n = IsDigit-space (decimal n) (decimal-IsDigit n)

words_of_attempts :
    (a : Attempts) → split_whitespace (attempts_text a) ≡ decimal a.count ∷ decimal a.last_fail ∷ []
unfolding attempts_text
words_of_attempts a =
    split_whitespace-append (decimal a.count) _ b' ' (decimal-NoSpace a.count)
      (decimal-cons a.count) space
    ∙ ap (λ r. decimal a.count ∷ r)
        (split_whitespace-append (decimal a.last_fail) [] b'\n' (decimal-NoSpace a.last_fail)
            (decimal-cons a.last_fail) newline
          ∙ ap (λ r. decimal a.last_fail ∷ r) (unfold split_whitespace in refl))
  where
    space : is_whitespace b' ' ≡ true
    space = unfold is_whitespace in refl

    newline : is_whitespace b'\n' ≡ true
    newline = unfold is_whitespace in refl

-- A counter whose count fits u32 and whose time fits u64 is read back from the text written for it.
pub read_attempts-text :
    (a : Attempts)
    → a.count ≤ u32_max
    → a.last_fail ≤ u64_max
    → read_attempts (text (attempts_text a)) ≡ ok a
unfolding read_attempts parse_fields parse_timestamp no_more
read_attempts-text a h k = rw (
  words_of_attempts a,
  parse_uint-decimal u32_max a.count h,
  parse_uint-decimal u64_max a.last_fail k,
)

-- The counter after one more failure.
abbrev pub bumped : ℕ → Attempts → Attempts
bumped now a = record { count = saturating_suc a.count; last_fail = now }

abbrev Holds : Attempts → File → Type 0
Holds a f = read_attempts f ≡ ok a

module _ (now : ℕ) (a : Attempts) where
  -- What the file reads as behind `record_failure`.
  abbrev pub Recorded : ℕ → File → Type 0
  Recorded count f = (count ≡ saturating_suc a.count) × (read_attempts f ≡ ok (bumped now a))

  abbrev pub Kept : File → Type 0
  Kept f = (read_attempts f ≡ ok a) ⊎ (read_attempts f ≡ ok (bumped now a))

module _ (now : ℕ) (a : Attempts) (in_time : now ≤ u64_max) where
  bumped_reads : read_attempts (text (attempts_text (bumped now a))) ≡ ok (bumped now a)
  bumped_reads = read_attempts-text (bumped now a) (ground arith) in_time

  record_failure-Triple : Triple (Holds a) (record_failure now) (Recorded now a) (Kept now a)
  unfolding record_failure
  record_failure-Triple =
      >>=-Triple (λ b f. Holds a f × (b ≡ a)) (lift-Triple (λ s b h e. (h, cc)) (λ s h. inl h))
        λ b.
          >>=-Triple (λ _ f. (b ≡ a) × Holds (bumped now a) f)
            (act_half-Triple _ _ _ (λ s h. (h.1, rw h.1 bumped_reads)) (λ s h. inl h.0)
              (λ s h. inr (rw h.1 bumped_reads)))
            λ _. pure-Triple _ (λ s h. (ap (λ c. saturating_suc c.count) h.0, h.1))

  -- From a counter that can be read, and with a clock within u64, recording a failure returns the count raised by one (and never
  -- past the largest `u32`) with the file reading so; after an error or a power cut the file reads
  -- as before or as raised, so no failure ever lowers it.
  pub record_failure_counts :
      (f : File) (w : List Fate)
      → read_attempts f ≡ ok a
      → Ends (Recorded now a) (Kept now a) (record_failure now f w)
  record_failure_counts f w h = record_failure-Triple.run f w h

-- The counter behind one failure.
pub record_failure-Comes :
    (now : ℕ) (a : Attempts) (f : File)
    → read_attempts f ≡ ok a
    → Comes
        (record_failure now)
        f
        []
        (done (saturating_suc a.count) (text (attempts_text (bumped now a))) [])
unfolding record_failure
record_failure-Comes now a f h =
    >>=-Comes _ (lift-Comes _ h) (>>=-Comes _ (act_half-Comes _ _ _) (pure-Comes _))

-- A counter that cannot be read stops the recording before anything is written.
record_failure_refuses :
    (now : ℕ) (f : File) (w : List Fate) {e : String}
    → read_attempts f ≡ err e
    → record_failure now f w ≡ failed e f w
unfolding record_failure ◌>>=◌ lift
record_failure_refuses now f w h = ground arith

module _ (now lockout_at cooldown r : ℕ) (a : Attempts) where
  remaining_sound :
      a.last_fail ≤ now
      → remaining now lockout_at cooldown a ≡ some r
      → (lockout_at ≤ a.count) × (0 < r) × (now + r ≡ a.last_fail + cooldown)
  unfolding remaining
  remaining_sound before e = ground arith

  remaining_complete :
      a.last_fail ≤ now
      → lockout_at ≤ a.count
      → 0 < r
      → now + r ≡ a.last_fail + cooldown
      → remaining now lockout_at cooldown a ≡ some r
  unfolding remaining
  remaining_complete before h k e = ground arith

-- A lockout is reported exactly while the count has reached its line and the cooldown is running,
-- with the seconds that are left, where the clock has not gone back behind the last failure.
lockout_remaining_iff :
    (now lockout_at cooldown r : ℕ) (f : File) (a : Attempts)
    → read_attempts f ≡ ok a
    → a.last_fail ≤ now
    → (lockout_remaining now lockout_at cooldown f ≡ ok (some r))
      ↔ ((lockout_at ≤ a.count) × (0 < r) × (now + r ≡ a.last_fail + cooldown))
unfolding lockout_remaining
lockout_remaining_iff now lockout_at cooldown r f a h before = (
  λ e. remaining_sound now lockout_at cooldown r a before (ground arith),
  λ k. rw h (ap (λ o. ok o) (remaining_complete now lockout_at cooldown r a before k.0 k.1 k.2)),
)
