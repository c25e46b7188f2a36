-- ===== src/Dsctl/Hooks/Standing.antt =====
-- The name of the hook in a HOOKS line, where it stands alone and where it does not.
use deathstr0ke.Base.{
  ℕ, ◌≡◌, refl, ◌⊎◌, inl, inr, Bool, true, false, not, ◌||◌, Bool-cases, [], ◌∷◌, ◌++◌, Option,
  none, some, arith,
}
use deathstr0ke.Text.{Text, contains_text, is_whitespace, starts_with, strip_prefix}
use deathstr0ke.Text.Search.{first_char, last_char}
use deathstr0ke.Text.Search.Laws.{contains_text-append_l, contains_text-append_r}
use deathstr0ke.Dsctl.Hooks.{hook, before_ok, after_ok, skip_space}

-- What may stand in front of the name of a hook that stands alone, and what behind it.
abbrev pub Opens : Option ℕ → Type 0
Opens none = Unit {0}
Opens (some c) = (is_whitespace c ≡ true) ⊎ (c ≡ b'(') ⊎ (c ≡ b'"')

abbrev pub Closes : Option ℕ → Type 0
Closes none = Unit {0}
Closes (some c) = (c ≡ b')') ⊎ (c ≡ b'"')

abbrev pub Spaced : Option ℕ → Type 0
Spaced none = ⊥
Spaced (some c) = is_whitespace c ≡ true

-- One occurrence that stands alone is taken out, with the white space behind it.
pub data Step : Text → Text → Type 0 where
  spaced :
      (p s : Text) (c : ℕ)
      → Opens (last_char p)
      → is_whitespace c ≡ true
      → Step (p ++ hook ++ c ∷ s) (p ++ s)
  closed :
      (p s : Text) → Opens (last_char p) → Closes (first_char s) → Step (p ++ hook ++ s) (p ++ s)

-- Occurrences that stand alone are taken out until there is none of the name.
pub data Removed : Text → Text → Type 0 where
  clean : (s : Text) → contains_text hook s ≡ false → Removed s s
  step : {s u t : Text} → Step s u → Removed u t → Removed s t

-- Steps that lead to an occurrence that does not stand alone.
pub data Stuck : Text → Type 0 where
  here :
      (p s : Text)
      → (Opens (last_char p) → Spaced (first_char s) ⊎ Closes (first_char s) → ⊥)
      → Stuck (p ++ hook ++ s)
  later : {s u : Text} → Step s u → Stuck u → Stuck s

opened : (o : Option ℕ) → before_ok o ≡ true → Opens o
opened none h = tt
opened (some c) h = ground arith

not_opened : (o : Option ℕ) → before_ok o ≡ false → Opens o → ⊥
not_opened none h k = ground arith
not_opened (some c) h k = ground arith

not_closed : (o : Option ℕ) → after_ok o ≡ false → Spaced o ⊎ Closes o → ⊥
not_closed none h k = ground arith
not_closed (some c) h k = ground arith

pub step_out :
    (p r : Text)
    → before_ok (last_char p) ≡ true
    → after_ok (first_char r) ≡ true
    → Step (p ++ hook ++ r) (p ++ skip_space r)
unfolding skip_space
step_out p [] b a = closed p [] (opened (last_char p) b) tt
step_out p (c ∷ r) b a = elim (Bool-cases (is_whitespace c)) [
  | inl w ↦ rw w (spaced p r c (opened (last_char p) b) w)
  | inr w ↦ rw w (closed p (c ∷ r) (opened (last_char p) b) (ground arith))
]

pub unremovable :
    (p r : Text)
    → (not (before_ok (last_char p)) || not (after_ok (first_char r))) ≡ true
    → Stuck (p ++ hook ++ r)
unremovable p r h = here p r λ o c. elim (Bool-cases (before_ok (last_char p))) [
  | inl b ↦ not_closed (first_char r) (second (before_ok (last_char p)) _ b h) c
  | inr b ↦ not_opened (last_char p) b o
]
  where
    second : (x y : Bool) → x ≡ true → (not x || not y) ≡ true → y ≡ false
    second x y e h = ground arith

pub contains_hook : (p r : Text) → contains_text hook (p ++ hook ++ r) ≡ true
contains_hook p r =
    contains_text-append_l hook (p ++ hook) r (contains_text-append_r hook p hook itself)
  where
    itself : contains_text hook hook ≡ true
    itself = unfold contains_text starts_with strip_prefix in refl
