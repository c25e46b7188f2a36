-- ===== src/Text.antt =====
-- `&str` and `String` as lists of code points, with the parts of Rust's standard library that the
-- crates call: comparison, white space, trimming, splitting, UTF-8.
pub mod Lines
pub mod Numbers
pub mod Laws
pub mod Search
use deathstr0ke.Base.{
  ℕ, ◌+◌, ◌-◌, ◌/◌, ◌%◌, String, Bool, true, false, ◌&&◌, ◌||◌, not, List, [], ◌∷◌, ◌++◌, Option,
  none, some, ltb, leb, ◌==◌, if◌then◌else◌, length, all,
}
use mathlib.Core.List.{flat_map, reverse}
use Prim.Native.Char.{code}

abbrev pub Text : Type 0
Text = List ℕ

abbrev pub Bytes : Type 0
Bytes = List ℕ

-- The code points of a literal.
abbrev pub codes : String → Text
codes String.[] = []
codes (String.◌∷◌ c s) = code c ∷ codes s

abbrev pub text_eq : List ℕ → List ℕ → Bool
text_eq [] [] = true
text_eq [] (d ∷ t) = false
text_eq (c ∷ s) [] = false
text_eq (c ∷ s) (d ∷ t) = c == d && text_eq s t

-- `char::is_whitespace`, the Unicode property White_Space.
unfoldable pub is_whitespace : ℕ → Bool
is_whitespace c =
    (leb 9 c && leb c 13)
    || c == 32
    || c == 0x85
    || c == 0xA0
    || c == 0x1680
    || (leb 0x2000 c && leb c 0x200A)
    || c == 0x2028
    || c == 0x2029
    || c == 0x202F
    || c == 0x205F
    || c == 0x3000

-- `str::trim_start_matches` with a predicate, `trim_start`, `trim_end` and `trim`.
unfoldable pub trim_start_matches : (ℕ → Bool) → Text → Text
trim_start_matches p [] = []
trim_start_matches p (c ∷ s) = let rest = trim_start_matches p s in if p c then rest else c ∷ s

unfoldable pub trim_end_matches : (ℕ → Bool) → Text → Text
unfolding trim_start_matches
trim_end_matches p s = reverse (trim_start_matches p (reverse s))

unfoldable pub trim_start : Text → Text
unfolding trim_start_matches
trim_start s = trim_start_matches is_whitespace s

unfoldable pub trim : Text → Text
unfolding trim_end_matches trim_start is_whitespace
trim s = trim_end_matches is_whitespace (trim_start s)

-- `str::strip_prefix`
unfoldable pub strip_prefix : Text → Text → Option Text
strip_prefix [] s = some s
strip_prefix (c ∷ p) [] = none
strip_prefix (c ∷ p) (d ∷ s) = let rest = strip_prefix p s in if c == d then rest else none

abbrev pub is_some_text : Option Text → Bool
is_some_text (some _) = true
is_some_text none = false

unfoldable pub starts_with : Text → Text → Bool
unfolding strip_prefix
starts_with p s = is_some_text (strip_prefix p s)

-- `str::contains` with a string.
unfoldable pub contains_text : Text → Text → Bool
unfolding starts_with
contains_text p [] = starts_with p []
contains_text p (c ∷ s) = starts_with p (c ∷ s) || contains_text p s

-- `str::split` at one character, and `split_once`.
pub cut : ℕ → Text → Text → List Text
cut sep cur [] = cur ∷ []
cut sep cur (c ∷ s) = elim (c == sep) [
  | true ↦ cur ∷ cut sep [] s
  | false ↦ cut sep (cur ++ c ∷ []) s
]

unfoldable pub split : ℕ → Text → List Text
unfolding cut
split sep s = cut sep [] s

pub once : ℕ → Text → Text → Option (Text × Text)
once sep cur [] = none
once sep cur (c ∷ s) = elim (c == sep) [ true ↦ some (cur, s) | false ↦ once sep (cur ++ c ∷ []) s ]

unfoldable pub split_once : ℕ → Text → Option (Text × Text)
unfolding once
split_once sep s = once sep [] s

unfoldable pub is_ascii : Text → Bool
is_ascii s = all (λ c. ltb c 128) s

-- `str::as_bytes`: the UTF-8 form of a text.
utf8_char : ℕ → Bytes
utf8_char c =
    if ltb c 0x80
    then c ∷ []
    else if ltb c 0x800
    then (0xC0 + c / 64) ∷ (0x80 + c % 64) ∷ []
    else if ltb c 0x10000
    then (0xE0 + c / 4096) ∷ (0x80 + c / 64 % 64) ∷ (0x80 + c % 64) ∷ []
    else (0xF0 + c / 262144) ∷ (0x80 + c / 4096 % 64) ∷ (0x80 + c / 64 % 64) ∷ (0x80 + c % 64) ∷ []

unfoldable pub as_bytes : Text → Bytes
unfolding utf8_char
as_bytes s = flat_map utf8_char s

-- `str::len` counts bytes.
unfoldable pub str_len : Text → ℕ
unfolding as_bytes
str_len s = length (as_bytes s)
