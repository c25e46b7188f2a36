-- ===== src/Dsctl/Registry/RoundTrip.antt =====
-- The registry that dsctl writes, read again.
use deathstr0ke.Base.{
  ℕ, ◌≡◌, ◌≤◌, refl, sym, ap, ◌∙◌, true, false, ◌||◌, List, [], ◌∷◌, ◌++◌, some, arith, All,
  append-nil, append_assoc,
}
use deathstr0ke.Text.{Text, is_whitespace, trim}
use deathstr0ke.Text.Laws.{NoSpace, trim-NoSpace}
use deathstr0ke.Text.Numbers.{u8_max, decimal, parse_uint}
use deathstr0ke.Text.Numbers.Decimal.{IsDigit, decimal-IsDigit, parse_uint-decimal}
use deathstr0ke.Files.{text}
use deathstr0ke.Luks.{insert, contains}
use deathstr0ke.Luks.Dump.{insert-contains}
use deathstr0ke.Dsctl.Registry.{
  is_separator, tokens, insert_number, insert_tokens, known_of, read_known_slots, numbers_text,
  known_text,
}

abbrev NoSeparator : Text → Type 0
NoSeparator s = All (λ c. is_separator c ≡ false) s

tokens-append :
    (cur s rest : Text) (c : ℕ)
    → NoSeparator s
    → is_separator c ≡ true
    → tokens cur (s ++ c ∷ rest) ≡ (cur ++ s) ∷ tokens [] rest
unfolding tokens
tokens-append cur [] rest c h w =
    rw (tokens, w) (ap (λ t. t ∷ tokens [] rest) (sym (append-nil cur)))
tokens-append cur (d ∷ s) rest c h w =
    rw (tokens, h.0)
      (tokens-append (cur ++ d ∷ []) s rest c h.1 w
        ∙ ap (λ t. t ∷ tokens [] rest) (append_assoc cur (d ∷ []) s))

digits_plain : (s : Text) → All IsDigit s → NoSeparator s × NoSpace s
digits_plain [] h = (tt, tt)
digits_plain (c ∷ s) h =
    ((digit_separator c h.0, (digits_plain s h.1).0), (digit_space c h.0, (digits_plain s h.1).1))
  where
    digit_separator : (c : ℕ) → IsDigit c → is_separator c ≡ false
    digit_separator c h = unfold is_separator in ground arith

    digit_space : (c : ℕ) → IsDigit c → is_whitespace c ≡ false
    digit_space c h = unfold is_whitespace in ground arith

token_number : (n : ℕ) → n ≤ u8_max → parse_uint u8_max (trim (decimal n)) ≡ some n
token_number n h =
    rw (trim-NoSpace (decimal n) (digits_plain (decimal n) (decimal-IsDigit n)).1)
      (parse_uint-decimal u8_max n h)

-- One number in front of a separator.
first_number :
    (n c : ℕ) (rest : Text) (acc : List ℕ)
    → n ≤ u8_max
    → is_separator c ≡ true
    → insert_tokens (tokens [] (decimal n ++ c ∷ rest)) acc
      ≡ insert_tokens (tokens [] rest) (insert n acc)
unfolding insert_tokens insert_number
first_number n c rest acc h w =
    rw
      (
        tokens-append [] (decimal n) rest c (digits_plain (decimal n) (decimal-IsDigit n)).0 w,
        insert_tokens,
        token_number n h,
      )
      refl

comma_separates : is_separator b',' ≡ true
comma_separates = unfold is_separator in refl

newline_separates : is_separator b'\n' ≡ true
newline_separates = unfold is_separator in refl

no_token : (acc : List ℕ) → insert_tokens (tokens [] []) acc ≡ acc
no_token acc = unfold insert_tokens insert_number tokens trim parse_uint in refl

numbers_known :
    (slots acc : List ℕ) (k : ℕ)
    → All (λ n. n ≤ u8_max) slots
    → contains (insert_tokens (tokens [] (numbers_text slots ++ b'\n' ∷ [])) acc) k
      ≡ (contains slots k || contains acc k)
unfolding numbers_text
numbers_known [] acc k h =
    unfold contains insert_tokens insert_number tokens is_separator trim parse_uint in refl
numbers_known (n ∷ []) acc k h =
    rw
      (
        first_number n b'\n' [] acc h.0 newline_separates,
        no_token (insert n acc),
        insert-contains n k acc,
      )
      (unfold contains in ground arith)
numbers_known (n ∷ m ∷ ms) acc k h =
    rw
      (
        append_assoc (decimal n) (b',' ∷ numbers_text (m ∷ ms)) (b'\n' ∷ []),
        first_number n b',' (numbers_text (m ∷ ms) ++ b'\n' ∷ []) acc h.0 comma_separates,
        numbers_known (m ∷ ms) (insert n acc) k h.1,
        insert-contains n k acc,
      )
      (unfold contains in ground arith)

-- The registry that is written for a set of slots is read back as that set, where each slot fits a u8.
pub read_known_slots-text :
    (slots : List ℕ) (k : ℕ)
    → All (λ n. n ≤ u8_max) slots
    → contains (read_known_slots (text (known_text slots))) k ≡ contains slots k
unfolding read_known_slots known_text known_of
read_known_slots-text slots k h = numbers_known slots [] k h ∙ (unfold contains in ground arith)
