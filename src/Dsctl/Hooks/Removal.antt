-- ===== src/Dsctl/Hooks/Removal.antt =====
-- What `without_deathstroke_hook` leaves of mkinitcpio.conf.
use deathstr0ke.Base.{
  ℕ, zero, suc, ◌≤◌, ◌<◌, ◌≡◌, refl, sym, subst, ◌⊎◌, inl, inr, Bool, true, false, not, ◌||◌, ◌&&◌,
  ◌∙◌, any, List, [], ◌∷◌, ◌++◌, Option, none, some, length, length-append, Result, ok, err, ◌>>=◌,
  ◌>>◌, bail_if, arith, String,
}
use deathstr0ke.Text.{Text, contains_text}
use deathstr0ke.Text.Lines.{lines}
use deathstr0ke.Text.Search.{find, take, drop, first_char, last_char, joined}
use deathstr0ke.Text.Search.Laws.{find-append, contains_text-find}
use deathstr0ke.Dsctl.Hooks.Standing.{
  Removed, clean, step, Stuck, later, step_out, unremovable, contains_hook,
}
use deathstr0ke.Dsctl.Hooks.{
  hook, is_hooks_line, before_ok, after_ok, skip_space, remove_hook, remove_hooks,
  without_deathstroke_hook,
}

abbrev pub unsafe : String
unsafe = "could not safely remove deathstroke token from HOOKS"

abbrev Stripped : Text → Bool → Result (Text × Bool) → Type 0
Stripped s changed (ok (t, changed')) = Removed s t × (changed' ≡ (changed || contains_text hook s))
Stripped s changed (err e) = (e ≡ unsafe) × Stuck s

skip_space_shortens : (s : Text) → length (skip_space s) ≤ length s
unfolding skip_space
skip_space_shortens [] = omega arith
skip_space_shortens (c ∷ s) = ground arith

shorter :
    (p s : Text) (fuel : ℕ) → length (p ++ hook ++ s) < suc fuel → length (p ++ skip_space s) < fuel
shorter p s fuel h = omega (
  arith,
  h,
  length-append (p ++ hook) s,
  length-append p hook,
  length-append p (skip_space s),
  skip_space_shortens s,
)

-- The rest of a round, by the two ends of what it found.
module _ (fuel : ℕ) (s : Text) (changed : Bool) (p r : Text) (whole : s ≡ p ++ hook ++ r)
    (rest : Stripped (p ++ skip_space r) true (remove_hook fuel (p ++ skip_space r) true)) where
  carried :
      before_ok (last_char p) ≡ true
      → after_ok (first_char r) ≡ true
      → (o : Result (Text × Bool)) → Stripped (p ++ skip_space r) true o
      → Stripped s changed o
  carried b a (ok (t, c)) k = (
    subst (λ x. Removed x t) (sym whole) (step (step_out p r b a) k.0),
    k.1 ∙ sym (changes (subst (λ x. contains_text hook x ≡ true) (sym whole) (contains_hook p r))),
  )
    where
      changes : contains_text hook s ≡ true → (changed || contains_text hook s) ≡ true
      changes h = ground arith
  carried b a (err x) k = (k.0, subst Stuck (sym whole) (later (step_out p r b a) k.1))

  by_ends :
      (b : Bool)
      → (not (before_ok (last_char p)) || not (after_ok (first_char r))) ≡ b
      → Stripped s changed
          (elim b [ true ↦ err unsafe | false ↦ remove_hook fuel (p ++ skip_space r) true ])
  by_ends true d = (refl, subst Stuck (sym whole) (unremovable p r d))
  by_ends false d =
      carried (ground arith) (ground arith) (remove_hook fuel (p ++ skip_space r) true) rest

-- With more rounds than characters, a round is never missing.
remove_hook-Stripped :
    (fuel : ℕ) (s : Text) (changed : Bool)
    → length s < fuel
    → Stripped s changed (remove_hook fuel s changed)
unfolding remove_hook
remove_hook-Stripped zero s changed h = elim h [ ]
remove_hook-Stripped (suc fuel) s changed h =
    by_place (λ p r short. remove_hook-Stripped fuel (p ++ skip_space r) true short) (find hook s)
      refl
  where
    unchanged : contains_text hook s ≡ false → changed ≡ (changed || contains_text hook s)
    unchanged h = ground arith

    by_place :
        ((p r : Text)
          → length (p ++ skip_space r) < fuel
          → Stripped (p ++ skip_space r) true (remove_hook fuel (p ++ skip_space r) true))
        → (o : Option ℕ) → find hook s ≡ o
        → Stripped s changed (elim o [
          | none ↦ ok (s, changed)
          | some start ↦
              elim (not (before_ok (last_char (take start s)))
                || not (after_ok (first_char (drop (length hook) (drop start s))))) [
                  | true ↦ err unsafe
                  | false ↦
                      remove_hook fuel
                        (take start s ++ skip_space (drop (length hook) (drop start s)))
                        true
                ]
        ])
    by_place rest none e =
        (clean s (contains_text-find hook s e), unchanged (contains_text-find hook s e))
    by_place rest (some k) e =
        let p : Text = take k s in
        let r : Text = drop (length hook) (drop k s) in
        let whole : s ≡ p ++ hook ++ r = find-append hook s e in
        by_ends fuel s changed p r whole
          (rest p r (shorter p r fuel (subst (λ x. length x < suc fuel) whole h))) _ refl

-- A HOOKS line has lost the name, every other line is as it was.
abbrev pub Line : Text → Text → Type 0
Line before after =
    (is_hooks_line before ≡ true → Removed before after)
    × (is_hooks_line before ≡ false → after ≡ before)

abbrev pub Pairs : List Text → List Text → Type 0
Pairs [] [] = Unit {0}
Pairs (l ∷ ls) (m ∷ ms) = Line l m × Pairs ls ms
Pairs ls ms = ⊥

-- Some HOOKS line has the name where it does not stand alone.
abbrev pub SomeStuck : List Text → Type 0
SomeStuck [] = ⊥
SomeStuck (l ∷ ls) = ((is_hooks_line l ≡ true) × Stuck l) ⊎ SomeStuck ls

abbrev pub has_hook : Text → Bool
has_hook line = is_hooks_line line && contains_text hook line

abbrev AllStripped : List Text → (saw changed : Bool) → Result (List Text × Bool × Bool) → Type 0
AllStripped ls saw changed (ok (ms, saw', changed')) =
    Pairs ls ms × (saw' ≡ (saw || any is_hooks_line ls)) × (changed' ≡ (changed || any has_hook ls))
AllStripped ls saw changed (err e) = (e ≡ unsafe) × SomeStuck ls

remove_hooks-Stripped :
    (ls : List Text) (saw changed : Bool) → AllStripped ls saw changed (remove_hooks ls saw changed)
unfolding remove_hooks
remove_hooks-Stripped [] saw changed = (tt, ground arith, ground arith)
remove_hooks-Stripped (l ∷ ls) saw changed =
    by_kind (remove_hooks-Stripped ls saw changed) (λ c. remove_hooks-Stripped ls true c)
      (is_hooks_line l) refl
  where
    plain :
        is_hooks_line l ≡ false
        → (r : Result (List Text × Bool × Bool)) → AllStripped ls saw changed r
        → AllStripped (l ∷ ls) saw changed (r >>= λ others. ok (l ∷ others.0, others.1, others.2))
    plain e (ok (ms, a, b)) h = (
      ((λ f. absurd (ground arith), λ _. refl), h.0),
      (let x = h.1 in ground arith),
      (let x = h.2 in ground arith),
    )
    plain e (err x) h = (h.0, inr h.1)

    hooked :
        (after : Text) (c : Bool)
        → is_hooks_line l ≡ true
        → Removed l after
        → c ≡ (changed || contains_text hook l)
        → (r : Result (List Text × Bool × Bool)) → AllStripped ls true c r
        → AllStripped
            (l ∷ ls)
            saw
            changed
            (r >>= λ others. ok (after ∷ others.0, others.1, others.2))
    hooked after c e p k (ok (ms, a, b)) h = (
      ((λ _. p, λ f. absurd (ground arith)), h.0),
      (let x = h.1 in ground arith),
      (let x = h.2 in ground arith),
    )
    hooked after c e p k (err x) h = (h.0, inr h.1)

    by_line :
        ((c : Bool) → AllStripped ls true c (remove_hooks ls true c))
        → is_hooks_line l ≡ true
        → (o : Result (Text × Bool)) → Stripped l changed o
        → AllStripped (l ∷ ls) saw changed (
            o >>= λ updated. remove_hooks ls true updated.1 >>= λ others.
            ok (updated.0 ∷ others.0, others.1, others.2))
    by_line rest e (ok (t, c)) h = hooked t c e h.0 h.1 _ (rest c)
    by_line rest e (err x) h = (h.0, inl (e, h.1))

    by_kind :
        AllStripped ls saw changed (remove_hooks ls saw changed)
        → ((c : Bool) → AllStripped ls true c (remove_hooks ls true c))
        → (b : Bool) → is_hooks_line l ≡ b
        → AllStripped (l ∷ ls) saw changed (elim b [
          | true ↦ remove_hook (suc (length l)) l changed >>= λ updated.
              remove_hooks ls true updated.1 >>= λ others.
              ok (updated.0 ∷ others.0, others.1, others.2)
          | false ↦ remove_hooks ls saw changed >>= λ others. ok (l ∷ others.0, others.1, others.2)
        ])
    by_kind same next true e =
        by_line next e _ (remove_hook-Stripped (suc (length l)) l changed (omega arith))
    by_kind same next false e = plain e _ same

-- How the removal may end.
abbrev pub Outcome : Text → Result (Text × Bool) → Type 0
Outcome original (ok (updated, changed)) =
    ((out : List Text) × (updated ≡ joined out) × Pairs (lines original) out)
    × (any is_hooks_line (lines original) ≡ true)
    × (changed ≡ any has_hook (lines original))
Outcome original (err e) =
    ((e ≡ unsafe) × SomeStuck (lines original))
    ⊎ ((e ≡ "mkinitcpio.conf has no HOOKS line") × (any is_hooks_line (lines original) ≡ false))

-- The removal of the hook ends in one of three ways. Where there is a HOOKS line: with a text of as many
-- lines, in which each HOOKS line has lost the name of the hook wherever it stood, and only where it
-- stood alone, with one white space behind it, and every other line is as it was, and with whether some
-- HOOKS line had the name; or with an error, if in some HOOKS line it comes to an occurrence that does
-- not stand alone. Where there is none: with the other error. The loop on a line never runs out of its
-- rounds.
pub without_deathstroke_hook_removes :
    (original : Text) → Outcome original (without_deathstroke_hook original)
unfolding without_deathstroke_hook
without_deathstroke_hook_removes original =
    by_lines (remove_hooks (lines original) false false)
      (remove_hooks-Stripped (lines original) false false)
  where
    by_lines :
        (o : Result (List Text × Bool × Bool))
        → AllStripped (lines original) false false o
        → Outcome original (
            o >>= λ done.
            bail_if (not done.1) "mkinitcpio.conf has no HOOKS line" >> ok (joined done.0, done.2))
    by_lines (ok (out, true, changed)) h = ((out, refl, h.0), sym h.1, h.2)
    by_lines (ok (out, false, changed)) h = inr (refl, sym h.1)
    by_lines (err e) h = inl h
