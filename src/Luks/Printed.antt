-- ===== src/Luks/Printed.antt =====
-- `active_slot_set` on a luksDump as cryptsetup prints it, for both formats.
use deathstr0ke.Base.{
  ℕ, ◌≤◌, ◌≡◌, refl, Bool, true, false, ◌&&◌, List, [], ◌∷◌, ◌++◌, map, some, ◌==◌, arith, All,
}
use deathstr0ke.Text.{Text, codes, is_whitespace, trim_start, strip_prefix, starts_with}
use deathstr0ke.Text.Laws.{Lacks}
use deathstr0ke.Text.Search.{joined}
use deathstr0ke.Text.Numbers.{u8_max, decimal}

-- A line behind its white space: a keyslot of LUKS2, one of LUKS1 and whether it is enabled, or a field
-- with a label and a value.
pub data Entry : Type 0 where
  keyslot : ℕ → Entry
  key_slot : ℕ → Bool → Entry
  field : (label value : Text) → Entry

abbrev state_text : Bool → Text
state_text true = codes " ENABLED"
state_text false = codes " DISABLED"

pub body : Entry → Text
body (keyslot n) = decimal n ++ b':' ∷ codes " luks2"
body (key_slot n enabled) = codes "Key Slot " ++ (decimal n ++ b':' ∷ state_text enabled)
body (field label value) = label ++ b':' ∷ value

-- Which slot the entry says to be active.
abbrev pub is_active : ℕ → Entry → Bool
is_active m (keyslot n) = m == n
is_active m (key_slot n enabled) = enabled && (m == n)
is_active m (field label value) = false

-- A slot number is one byte. A field is neither a LUKS1 line nor has a value that begins with luks2.
abbrev pub IsFit : Entry → Type 0
IsFit (keyslot n) = n ≤ u8_max
IsFit (key_slot n enabled) = n ≤ u8_max
IsFit (field label value) =
    Lacks b':' label
    × (trim_start (label ++ b':' ∷ value) ≡ label ++ b':' ∷ value)
    × (starts_with (codes "luks2") (trim_start value) ≡ false)
    × (starts_with (codes "Key Slot ") (label ++ b':' ∷ value) ≡ false)
    × (Lacks b'\n' (label ++ b':' ∷ value) × Lacks b'\r' (label ++ b':' ∷ value))

-- White space that does not end a line.
abbrev pub IsIndent : Text → Type 0
IsIndent s = All (λ c. is_whitespace c ≡ true) s × (Lacks b'\n' s × Lacks b'\r' s)

pub print : List (Text × Entry) → Text
unfolding body
print es = joined (map (λ e. e.0 ++ body e.1) es)

abbrev pub IsDump : List (Text × Entry) → Type 0
IsDump es = All (λ e. IsIndent e.0 × IsFit e.1) es

strip_prefix-append : (p s : Text) → strip_prefix p (p ++ s) ≡ some s
unfolding strip_prefix
strip_prefix-append [] s = refl
strip_prefix-append (c ∷ p) s = let later = strip_prefix-append p s in ground arith

abbrev NoBreak : Text → Type 0
NoBreak s = Lacks b'\n' s × Lacks b'\r' s
