-- ===== src/Dsctl/Deadman/Window.antt =====
-- When the dead-man switch fires.
use deathstr0ke.Base.{
  ℕ, ◌+◌, ◌%◌, ◌^◌, ◌≡◌, ◌≤◌, ◌<◌, refl, sym, ap, ◌∙◌, subst, true, false, List, [], ◌∷◌, some,
  arith, ltb, ok, expect_some,
}
use deathstr0ke.Text.{Text}
use deathstr0ke.Text.Numbers.{u64_max}
use deathstr0ke.Files.{text, readable}
use deathstr0ke.Effects.{done, final}
use deathstr0ke.Effects.Runs.{
  Comes, >>=-Comes, lift-Comes, pure-Comes, attempt-Comes, act_half-Comes,
}
use deathstr0ke.Erase.Host.{configured_target}
use deathstr0ke.Dsctl.Machine.{Machine, require_root}
use deathstr0ke.Dsctl.Deadman.{
  Watch, read_deadman, deadman_text, write_deadman, reset_clock, checkin, overdue, fire_target,
  fire_if, deadman_check,
}
use deathstr0ke.Dsctl.Deadman.Stored.{read_deadman-text}

overdue_at :
    (now window last : ℕ)
    → last + window ≤ u64_max
    → overdue now (some (window, last)) ≡ ltb (last + window) now
unfolding overdue
overdue_at now window last h = ap (λ n. ltb n now) (wraps_not (last + window) h)
  where
    wraps_not : (n : ℕ) → n ≤ u64_max → n % 2 ^ 64 ≡ n
    wraps_not n h = omega (arith, h)

-- What happens to the machine: the user checks in, or the timer runs the check.
pub data Event : Type 0 where
  checks_in timer : ℕ → Event

abbrev pub happens : Machine → Event → Watch → Watch
happens host (checks_in now) s = final (checkin host now s [])
happens host (timer now) s = final (deadman_check host now s [])

abbrev pub all_happen : Machine → List Event → Watch → Watch
all_happen host [] s = s
all_happen host (e ∷ es) s = all_happen host es (happens host e s)

-- Each event comes within the window from the last time that the user checked in.
abbrev pub InTime : (window last : ℕ) → List Event → Type 0
InTime window last [] = Unit {0}
InTime window last (checks_in now ∷ es) = (now + window ≤ u64_max) × InTime window now es
InTime window last (timer now ∷ es) = (now ≤ last + window) × InTime window last es

module _ (host : Machine) (window : ℕ) where
  abbrev Set : ℕ → Watch → Type 0
  Set last s = s.deadman_state ≡ text (deadman_text window last)

  found :
      (last : ℕ) (s : Watch)
      → last + window ≤ u64_max
      → Set last s
      → read_deadman s.deadman_state ≡ some (window, last)
  found last s b h =
      ap read_deadman h ∙ read_deadman-text window last (omega (arith, b)) (omega (arith, b))

  is_root : host.root ≡ true → require_root host ≡ ok tt
  is_root root = unfold require_root in rw root refl

  checked_in :
      (now last : ℕ) (s : Watch)
      → host.root ≡ true
      → last + window ≤ u64_max
      → Set last s
      → checkin host now s []
        ≡ done tt (record s { deadman_state = text (deadman_text window now) }) []
  checked_in now last s root b h = c.run
    where
      c :
          Comes
            (checkin host now)
            s
            []
            (done tt (record s { deadman_state = text (deadman_text window now) }) [])
      c =
          unfold checkin in
          >>=-Comes _ (lift-Comes _ {a = tt} {s = s} (is_root root)) (
            >>=-Comes _ (lift-Comes _ {s = s} (ap (λ o. ok o) (found last s b h)))
              (unfold reset_clock write_deadman in act_half-Comes _ _ _))

  waited :
      (now last : ℕ) (s : Watch)
      → last + window ≤ u64_max
      → now ≤ last + window
      → Set last s
      → deadman_check host now s [] ≡ done 0 s []
  waited now last s b t h = c.run
    where
      calm : overdue now (some (window, last)) ≡ false
      calm = overdue_at now window last b ∙ ground arith

      c : Comes (deadman_check host now) s [] (done 0 s [])
      c =
          unfold deadman_check in
          >>=-Comes _ (lift-Comes _ {s = s} (ap (λ o. ok o) (found last s b h))) (
            subst (λ x. Comes (fire_if host x) s [] (done 0 s [])) (sym calm)
              (unfold fire_if in pure-Comes 0))

  spares :
      (es : List Event) (last : ℕ) (s : Watch)
      → host.root ≡ true
      → last + window ≤ u64_max
      → Set last s
      → InTime window last es
      → (all_happen host es s).fired ≡ s.fired
  spares [] last s root b h k = refl
  spares (checks_in now ∷ es) last s root b h k =
      subst (λ r. (all_happen host es (final {S = Watch} r)).fired ≡ s.fired)
        (sym (checked_in now last s root b h))
        (spares es now (record s { deadman_state = text (deadman_text window now) }) root k.0 refl
          k.1)
  spares (timer now ∷ es) last s root b h k =
      subst (λ r. (all_happen host es (final {S = Watch} r)).fired ≡ s.fired)
        (sym (waited now last s b k.0 h)) (spares es last s root b h k.1)

  fires :
      (now last : ℕ) (device : Text) (s : Watch)
      → last + window ≤ u64_max
      → last + window < now
      → configured_target (readable host.target_device) ≡ some device
      → Set last s
      → deadman_check host now s [] ≡ done 2 (record s { fired = device ∷ s.fired }) []
  fires now last device s b t target h = c.run
    where
      late : overdue now (some (window, last)) ≡ true
      late = overdue_at now window last b ∙ ground arith

      c : Comes (deadman_check host now) s [] (done 2 (record s { fired = device ∷ s.fired }) [])
      c =
          unfold deadman_check in
          >>=-Comes _ (lift-Comes _ {s = s} (ap (λ o. ok o) (found last s b h))) (
            subst
              (λ x. Comes (fire_if host x) s [] (done 2 (record s { fired = device ∷ s.fired }) []))
              (sym late)
              (unfold fire_if fire_target in
                >>=-Comes _
                  (lift-Comes _ {s = s}
                    (ap (λ o. expect_some "no target device configured" o) target))
                  (>>=-Comes _ (attempt-Comes (act_half-Comes _ _ _)) (pure-Comes 2))))

-- Where the state of the switch was written at `last`, and every later check-in and every run of the
-- timer comes within the window from the check-in before it, nothing is ever fired, as long as no
-- deadline passes 64 bits and the commands are run as root with every write working.
pub deadman_spares :
    (host : Machine) (window last : ℕ) (es : List Event) (s : Watch)
    → host.root ≡ true
    → last + window ≤ u64_max
    → s.deadman_state ≡ text (deadman_text window last)
    → InTime window last es
    → (all_happen host es s).fired ≡ s.fired
deadman_spares host window last es s root b h k = spares host window es last s root b h k

-- The timer's first run behind the deadline fires ds-erase on the recorded device and answers 2, where
-- the deadline does not pass 64 bits, a device is recorded, and ds-erase works.
pub deadman_fires :
    (host : Machine) (window last now : ℕ) (device : Text) (s : Watch)
    → last + window ≤ u64_max
    → last + window < now
    → configured_target (readable host.target_device) ≡ some device
    → s.deadman_state ≡ text (deadman_text window last)
    → deadman_check host now s [] ≡ done 2 (record s { fired = device ∷ s.fired }) []
deadman_fires host window last now device s b t target h =
    fires host window now last device s b t target h
