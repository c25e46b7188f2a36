-- ===== src/Text/Lines.antt =====
-- `str::lines` and `str::split_whitespace`.
pub mod Laws
use deathstr0ke.Base.{ℕ, true, false, List, [], ◌∷◌, ◌++◌, ◌==◌, if◌then◌else◌}
use deathstr0ke.Text.{Text, is_whitespace}
use mathlib.Core.List.{reverse}

-- A line loses one `\r` before its `\n`.
unfoldable pub drop_cr : Text → Text
drop_cr s = elim (reverse s) [ [] ↦ [] | c ∷ r ↦ if c == b'\r' then reverse r else s ]

-- An empty rest after the last `\n` is no line; a rest with no `\n` keeps its `\r`.
take_lines : Text → Text → List Text
take_lines [] [] = []
take_lines (c ∷ cur) [] = (c ∷ cur) ∷ []
take_lines cur (c ∷ s) = elim (c == b'\n') [
  | true ↦ drop_cr cur ∷ take_lines [] s
  | false ↦ take_lines (cur ++ c ∷ []) s
]

unfoldable pub lines : Text → List Text
unfolding take_lines drop_cr
lines s = take_lines [] s

push_word : Text → List Text → List Text
push_word [] ws = ws
push_word (c ∷ w) ws = (c ∷ w) ∷ ws

take_words : Text → Text → List Text
take_words cur [] = push_word cur []
take_words cur (c ∷ s) = elim (is_whitespace c) [
  | true ↦ push_word cur (take_words [] s)
  | false ↦ take_words (cur ++ c ∷ []) s
]

unfoldable pub split_whitespace : Text → List Text
unfolding take_words push_word is_whitespace
split_whitespace s = take_words [] s
