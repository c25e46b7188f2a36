-- ===== src/Text/Numbers/Hex.antt =====
-- Printing a byte in hexadecimal and reading it back.
use deathstr0ke.Base.{
  ℕ, ◌/◌, ◌%◌, ◌<◌, ◌≤◌, ◌≡◌, refl, ◌⊎◌, [], ◌∷◌, some, arith, ◌&&◌, All, ◌==◌, Bool, true, false,
  zero, suc, none,
}
use deathstr0ke.Text.Numbers.{u8_max, from_str_radix, hex_digit, hex_byte}

abbrev is_read : ℕ → Bool
is_read b = elim (from_str_radix 16 u8_max (hex_byte b)) [ none ↦ false | some r ↦ r == b ]

-- Whether a test passes on every number under a bound, the last one looked at first.
module _ (test : ℕ → Bool) where
  passes_under : ℕ → Bool
  passes_under zero = true
  passes_under (suc last) = test last && passes_under last

  passes_under_sound : (bound : ℕ) {k : ℕ} → passes_under bound ≡ true → k < bound → test k ≡ true
  unfolding passes_under
  passes_under_sound zero e below = absurd (omega arith)
  passes_under_sound (suc last) {k} e below = ground (arith, passes_under_sound last {k = k})

hex_table : passes_under is_read 256 ≡ true
unfolding passes_under from_str_radix hex_byte
hex_table = refl

-- Every byte is read back from its two hexadecimal digits.
pub from_str_radix-hex_byte : (b : ℕ) → b < 256 → from_str_radix 16 u8_max (hex_byte b) ≡ some b
from_str_radix-hex_byte b h = ground (arith, passes_under_sound is_read 256 {k = b} hex_table h)

abbrev pub IsHexDigit : ℕ → Type 0
IsHexDigit c = (b'0' ≤ c) × (c ≤ b'9') ⊎ (b'a' ≤ c) × (c ≤ b'f')

hex_digit-IsHexDigit : (d : ℕ) → d < 16 → IsHexDigit (hex_digit d)
unfolding hex_digit
hex_digit-IsHexDigit d h = ground arith

pub hex_byte-IsHexDigit : (b : ℕ) → b < 256 → All IsHexDigit (hex_byte b)
unfolding hex_byte
hex_byte-IsHexDigit b h =
    (hex_digit-IsHexDigit (b / 16) (omega arith), (hex_digit-IsHexDigit (b % 16) (omega arith), tt))

-- The two digits of a byte.
pub hex_byte-eq_pair : (b : ℕ) → (c : ℕ) × (d : ℕ) × (hex_byte b ≡ c ∷ d ∷ [])
unfolding hex_byte
hex_byte-eq_pair b = (hex_digit (b / 16), hex_digit (b % 16), refl)
