-- ===== src/Text/Numbers.antt =====
-- Numbers as text: `{}` and `{:02x}` of `format!`, `str::parse` and `from_str_radix` of the unsigned
-- integer types. A type is named by its largest value.
pub mod Decimal
pub mod Hex
use deathstr0ke.Base.{
  ℕ, zero, suc, ◌+◌, ◌-◌, ◌*◌, ◌/◌, ◌%◌, ◌^◌, ◌<◌, Bool, true, false, ◌&&◌, [], ◌∷◌, Option, none,
  some, ltb, leb, ◌==◌, if◌then◌else◌, ◌≡◌, refl,
}
use deathstr0ke.Text.{Text, codes}

abbrev pub u8_max : ℕ
u8_max = 255

abbrev pub u32_max : ℕ
u32_max = 2 ^ 32 - 1

abbrev pub u64_max : ℕ
u64_max = 2 ^ 64 - 1

-- `char::to_digit`, for a radix up to 16.
to_digit : ℕ → ℕ → Option ℕ
to_digit radix c =
    if leb b'0' c && leb c b'9' && ltb (c - b'0') radix
    then some (c - b'0')
    else if leb b'a' c && leb c b'z' && ltb (c - b'a' + 10) radix
    then some (c - b'a' + 10)
    else if leb b'A' c && leb c b'Z' && ltb (c - b'A' + 10) radix
    then some (c - b'A' + 10)
    else none

-- Each round checks that the number so far stays in the type.
scan : ℕ → ℕ → Text → ℕ → Option ℕ
scan radix max [] n = some n
scan radix max (c ∷ s) n = elim (to_digit radix c) [
  | none ↦ none
  | some d ↦
      let next = n * radix + d in
      elim (leb next max) [ true ↦ scan radix max s next | false ↦ none ]
]

-- One leading `+` is dropped; an empty number is an error, also behind a `+`.
from_digits : ℕ → ℕ → Text → Option ℕ
from_digits radix max [] = none
from_digits radix max (c ∷ s) = scan radix max (c ∷ s) 0

unfoldable pub from_str_radix : ℕ → ℕ → Text → Option ℕ
unfolding to_digit scan from_digits
from_str_radix radix max [] = none
from_str_radix radix max (c ∷ s) =
    if c == b'+' then from_digits radix max s else from_digits radix max (c ∷ s)

-- `text.parse::<uN>()`
unfoldable pub parse_uint : ℕ → Text → Option ℕ
unfolding from_str_radix
parse_uint max s = from_str_radix 10 max s

-- The digits of `n` before `out`; `n` rounds are more than enough.
emit : ℕ → ℕ → Text → Text
emit zero n out = out
emit (suc fuel) n out = elim (ltb n 10) [
  | true ↦ (b'0' + n) ∷ out
  | false ↦ emit fuel (n / 10) ((b'0' + n % 10) ∷ out)
]

-- `{}` of a number.
unfoldable pub decimal : ℕ → Text
unfolding emit
decimal n = emit (suc n) n []

hex_digit : ℕ → ℕ
hex_digit d = if ltb d 10 then b'0' + d else b'a' + (d - 10)

-- `{:02x}` of a byte.
unfoldable pub hex_byte : ℕ → Text
unfolding hex_digit
hex_byte b = hex_digit (b / 16) ∷ hex_digit (b % 16) ∷ []

decimal_test : decimal 600000 ≡ codes "600000"
unfolding decimal
decimal_test = refl

parse_uint_tests :
    (parse_uint u32_max (codes "+4294967295") ≡ some 4294967295)
    × (parse_uint u32_max (codes "4294967296") ≡ none)
    × (parse_uint u8_max (codes "+") ≡ none)
    × (parse_uint u8_max (codes "-1") ≡ none)
    × (from_str_radix 16 u8_max (codes "+f") ≡ some 15)
unfolding parse_uint
parse_uint_tests = (refl, refl, refl, refl, refl)
