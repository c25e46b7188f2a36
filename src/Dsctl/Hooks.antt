-- ===== src/Dsctl/Hooks.antt =====
-- The HOOKS line of mkinitcpio.conf: `ensure_deathstroke_hook_before_encrypt` and
-- `without_deathstroke_hook` of dsctl/src/main.rs, without the reading and the writing of the file.
pub mod Standing
pub mod Removal
pub mod Placement
use deathstr0ke.Base.{
  ℕ, zero, suc, ◌≡◌, refl, Bool, true, false, not, ◌||◌, List, [], ◌∷◌, ◌++◌, Option, none, some,
  ltb, ◌==◌, length, Result, ok, err, ◌>>=◌, ◌>>◌, bail_if, if◌then◌else◌,
}
use deathstr0ke.Text.{Text, codes, is_whitespace, trim_start, starts_with}
use deathstr0ke.Text.Lines.{lines}
use deathstr0ke.Text.Search.{find, take, drop, first_char, last_char, joined}

abbrev pub hook : Text
hook = codes "deathstroke"

unfoldable pub is_hooks_line : Text → Bool
unfolding starts_with trim_start
is_hooks_line line = starts_with (codes "HOOKS=") (trim_start line)

-- What may stand on the two sides of the hook's name.
abbrev pub before_ok : Option ℕ → Bool
before_ok none = true
before_ok (some c) = is_whitespace c || c == b'(' || c == b'"'

abbrev pub after_ok : Option ℕ → Bool
after_ok none = true
after_ok (some c) = is_whitespace c || c == b')' || c == b'"'

-- One white space behind the name goes with it.
unfoldable pub skip_space : Text → Text
skip_space [] = []
skip_space (c ∷ s) = if is_whitespace c then s else c ∷ s

-- The loop on one line. A round takes the name away, so that as many rounds as the line has
-- characters are enough.
unfoldable pub remove_hook : ℕ → Text → Bool → Result (Text × Bool)
unfolding find skip_space
remove_hook zero line changed = err "no round is left"
remove_hook (suc fuel) line changed = elim (find hook line) [
  | none ↦ ok (line, changed)
  | some start ↦
      elim (not (before_ok (last_char (take start line)))
        || not (after_ok (first_char (drop (length hook) (drop start line))))) [
          | true ↦ err "could not safely remove deathstroke token from HOOKS"
          | false ↦
              remove_hook fuel
                (take start line ++ skip_space (drop (length hook) (drop start line))) true
        ]
]

-- The loop over the lines, from whether a HOOKS line was seen and whether anything was changed.
unfoldable pub remove_hooks : List Text → Bool → Bool → Result (List Text × Bool × Bool)
remove_hooks [] saw changed = ok ([], saw, changed)
remove_hooks (line ∷ rest) saw changed = elim (is_hooks_line line) [
  | true ↦ (do
    updated ← remove_hook (suc (length line)) line changed
    others ← remove_hooks rest true updated.1
    ok (updated.0 ∷ others.0, others.1, others.2))
  | false ↦ (do others ← remove_hooks rest saw changed; ok (line ∷ others.0, others.1, others.2))
]

unfoldable pub without_deathstroke_hook : Text → Result (Text × Bool)
unfolding remove_hooks lines joined
without_deathstroke_hook original = do
  done ← remove_hooks (lines original) false false
  bail_if (not done.1) "mkinitcpio.conf has no HOOKS line"
  ok (joined done.0, done.2)

abbrev or_find : Option ℕ → Option ℕ → Option ℕ
or_find (some n) o = some n
or_find none o = o

-- One HOOKS line, by where the two names stand.
place_at : Text → Option ℕ → Option ℕ → Result (Text × Bool)
place_at line (some d) (some e) =
    if ltb e d then err "deathstroke hook must precede encrypt/sd-encrypt" else ok (line, false)
place_at line none (some e) = ok (take e line ++ codes "deathstroke " ++ drop e line, true)
place_at line death none = err "HOOKS has no encrypt or sd-encrypt hook"

unfoldable pub place_hook : Text → Result (Text × Bool)
unfolding place_at find
place_hook line =
    place_at line (find hook line)
      (or_find (find (codes "encrypt") line) (find (codes "sd-encrypt") line))

unfoldable pub place_hooks : List Text → Bool → Bool → Result (List Text × Bool × Bool)
place_hooks [] saw changed = ok ([], saw, changed)
place_hooks (line ∷ rest) saw changed = elim (is_hooks_line line) [
  | true ↦ (do
    updated ← place_hook line
    others ← place_hooks rest true (changed || updated.1)
    ok (updated.0 ∷ others.0, others.1, others.2))
  | false ↦ (do others ← place_hooks rest saw changed; ok (line ∷ others.0, others.1, others.2))
]

-- The new text of the file, and whether it differs.
unfoldable pub with_deathstroke_hook : Text → Result (Text × Bool)
unfolding place_hooks lines joined
with_deathstroke_hook original = do
  done ← place_hooks (lines original) false false
  bail_if (not done.1) "mkinitcpio.conf has no HOOKS line"
  ok (joined done.0, done.2)

-- The source's own test.
source_test :
    (without_deathstroke_hook
        (codes "MODULES=()\nHOOKS=(base udev deathstroke encrypt filesystems)\n")
      ≡ ok (codes "MODULES=()\nHOOKS=(base udev encrypt filesystems)\n", true))
    × (without_deathstroke_hook (codes "HOOKS=(base mydeathstroke encrypt)\n")
        ≡ err "could not safely remove deathstroke token from HOOKS")
unfolding without_deathstroke_hook remove_hook is_hooks_line is_whitespace starts_with
source_test = (refl, refl)

-- With sd-encrypt the name lands inside that word, and cannot be removed again.
split_word :
    (with_deathstroke_hook (codes "HOOKS=(base systemd sd-encrypt)\n")
      ≡ ok (codes "HOOKS=(base systemd sd-deathstroke encrypt)\n", true))
    × (without_deathstroke_hook (codes "HOOKS=(base systemd sd-deathstroke encrypt)\n")
        ≡ err "could not safely remove deathstroke token from HOOKS")
unfolding with_deathstroke_hook without_deathstroke_hook remove_hook place_hook is_hooks_line
    is_whitespace starts_with
split_word = (refl, refl)
