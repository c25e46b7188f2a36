-- ===== src/Text/Search.antt =====
-- `str::find`, slices at what it found, and `join`.
pub mod Laws
use deathstr0ke.Base.{ℕ, zero, suc, Bool, true, false, List, [], ◌∷◌, ◌++◌, Option, none, some}
use deathstr0ke.Text.{Text, starts_with}
use mathlib.Core.List.{reverse}

shift : Option ℕ → Option ℕ
shift none = none
shift (some n) = some (suc n)

-- The position of the first occurrence. Positions count code points where Rust counts bytes; they are
-- only used to slice the same text and to compare two of them.
unfoldable pub find : Text → Text → Option ℕ
unfolding shift
find p [] = elim (starts_with p []) [ true ↦ some 0 | false ↦ none ]
find p (c ∷ s) = elim (starts_with p (c ∷ s)) [ true ↦ some 0 | false ↦ shift (find p s) ]

abbrev pub take : ℕ → Text → Text
take zero s = []
take (suc n) [] = []
take (suc n) (c ∷ s) = c ∷ take n s

abbrev pub drop : ℕ → Text → Text
drop zero s = s
drop (suc n) [] = []
drop (suc n) (c ∷ s) = drop n s

-- `chars().next()` and `chars().next_back()`
abbrev pub first_char : Text → Option ℕ
first_char [] = none
first_char (c ∷ s) = some c

abbrev pub last_char : Text → Option ℕ
last_char s = first_char (reverse s)

-- `lines.join("\n") + "\n"`, where there is a line.
unfoldable pub joined : List Text → Text
joined [] = []
joined (line ∷ rest) = line ++ b'\n' ∷ joined rest
