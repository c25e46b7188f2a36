-- ===== src/Text/Numbers/Decimal.antt =====
-- Printing a number in decimal and reading it back.
use deathstr0ke.Base.{
  ℕ, zero, suc, ◌+◌, ◌*◌, ◌/◌, ◌%◌, ◌≤◌, ◌<◌, ◌≡◌, refl, ◌≢◌, inl, inr, [], ◌∷◌, some, arith,
  Option-cases, All, ◌∙◌,
}
use deathstr0ke.Text.{Text}
use deathstr0ke.Text.Numbers.{to_digit, scan, from_str_radix, parse_uint, emit, decimal}

abbrev pub IsDigit : ℕ → Type 0
IsDigit c = (b'0' ≤ c) × (c ≤ b'9')

emit-IsDigit : (fuel n : ℕ) (out : Text) → All IsDigit out → All IsDigit (emit fuel n out)
unfolding emit
emit-IsDigit zero n out h = h
emit-IsDigit (suc fuel) n out h = ground (arith, emit-IsDigit fuel (n / 10) ((b'0' + n % 10) ∷ out))

-- Every character of a printed number is a digit.
pub decimal-IsDigit : (n : ℕ) → All IsDigit (decimal n)
unfolding decimal
decimal-IsDigit n = emit-IsDigit (suc n) n [] tt

scan_digit :
    (max d n : ℕ) (s : Text)
    → d < 10
    → n * 10 + d ≤ max
    → scan 10 max ((b'0' + d) ∷ s) n ≡ scan 10 max s (n * 10 + d)
unfolding scan to_digit
scan_digit max d n s h fits = ground arith

scan-emit :
    (max fuel n : ℕ) (out : Text)
    → n < fuel
    → n ≤ max
    → scan 10 max (emit fuel n out) 0 ≡ scan 10 max out n
unfolding emit
scan-emit max zero n out h fits = elim h [ ]
scan-emit max (suc fuel) n out h fits = ground (
  arith,
  scan-emit max fuel (n / 10) ((b'0' + n % 10) ∷ out),
  scan_digit max n 0 out,
  scan_digit max (n % 10) (n / 10) out,
)

emit-cons : (fuel n : ℕ) (out : Text) → emit (suc fuel) n out ≢ []
unfolding emit
emit-cons zero n out = ground arith
emit-cons (suc fuel) n out = ground (arith, emit-cons fuel (n / 10) ((b'0' + n % 10) ∷ out))

from_str_radix_digits :
    (max : ℕ) (s : Text) → s ≢ [] → All IsDigit s → from_str_radix 10 max s ≡ scan 10 max s 0
unfolding from_str_radix
from_str_radix_digits max [] h d = absurd (h refl)
from_str_radix_digits max (c ∷ s) h d = ground arith

-- A number that fits its type is read back from its decimal print.
pub parse_uint-decimal : (max n : ℕ) → n ≤ max → parse_uint max (decimal n) ≡ some n
unfolding parse_uint decimal
parse_uint-decimal max n h =
    from_str_radix_digits max (emit (suc n) n []) (emit-cons n n []) (emit-IsDigit (suc n) n [] tt)
    ∙ scan-emit max (suc n) n [] (omega arith) h
    ∙ unfold scan in refl

pub decimal-cons : (n : ℕ) → decimal n ≢ []
unfolding decimal
decimal-cons n = emit-cons n n []

scan_bound : (radix max : ℕ) (s : Text) (n r : ℕ) → n ≤ max → scan radix max s n ≡ some r → r ≤ max
unfolding scan
scan_bound radix max [] n r h e = ground arith
scan_bound radix max (c ∷ s) n r h e = elim (Option-cases (to_digit radix c)) [
  | inl bad ↦ ground arith
  | inr (d, good) ↦ ground (arith, scan_bound radix max s (n * radix + d) r)
]

pub from_str_radix_bound :
    (radix max : ℕ) (s : Text) {r : ℕ} → from_str_radix radix max s ≡ some r → r ≤ max
unfolding from_str_radix
from_str_radix_bound radix max [] {r} e = cc
from_str_radix_bound radix max (c ∷ []) {r} e = ground (arith, scan_bound radix max (c ∷ []) 0 r)
from_str_radix_bound radix max (c ∷ d ∷ s) {r} e =
    ground (arith, scan_bound radix max (c ∷ d ∷ s) 0 r, scan_bound radix max (d ∷ s) 0 r)

-- A number that is read lies in its type.
pub parse_uint_bound : (max : ℕ) (s : Text) {r : ℕ} → parse_uint max s ≡ some r → r ≤ max
unfolding parse_uint
parse_uint_bound max s e = from_str_radix_bound 10 max s e
