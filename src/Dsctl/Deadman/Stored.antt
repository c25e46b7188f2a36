-- ===== src/Dsctl/Deadman/Stored.antt =====
-- The state file of the dead-man switch, read again.
use deathstr0ke.Base.{
  ℕ, ◌≡◌, ◌≤◌, refl, ap, ◌∙◌, subst, Bool, true, false, List, [], ◌∷◌, ◌++◌, Option, none, some,
  arith, ◌==◌, All, All-append,
}
use deathstr0ke.Text.{Text, codes, is_whitespace, trim, trim_start_matches, strip_prefix}
use deathstr0ke.Text.Laws.{Lacks, NoSpace, trim-NoSpace}
use deathstr0ke.Text.Lines.{lines}
use deathstr0ke.Text.Lines.Laws.{lines-cons}
use deathstr0ke.Text.Numbers.{u64_max, decimal, parse_uint}
use deathstr0ke.Text.Numbers.Decimal.{IsDigit, decimal-IsDigit, parse_uint-decimal}
use deathstr0ke.Files.{text}
use deathstr0ke.Dsctl.Deadman.{
  is_equals, value_of, find_value, pair_of, deadman_of, read_deadman, deadman_text,
}

digits_lack : (c : ℕ) (s : Text) → (IsDigit c → ⊥) → All IsDigit s → Lacks c s
digits_lack c [] other h = tt
digits_lack c (d ∷ s) other h = (by_test (d == c) refl, digits_lack c s other h.1)
  where
    by_test : (b : Bool) → (d == c) ≡ b → (d == c) ≡ false
    by_test true e = absurd (other (subst (λ x. IsDigit x) (ground arith) h.0))
    by_test false e = e

digits_NoSpace : (s : Text) → All IsDigit s → NoSpace s
digits_NoSpace [] h = tt
digits_NoSpace (c ∷ s) h = ((unfold is_whitespace in ground arith), digits_NoSpace s h.1)

no_equals : (s : Text) → All IsDigit s → trim_start_matches is_equals s ≡ s
unfolding trim_start_matches is_equals
no_equals [] h = refl
no_equals (c ∷ s) h = ground arith

-- The value behind a key.
value_of-decimal : (n : ℕ) → n ≤ u64_max → value_of (some (b'=' ∷ decimal n)) ≡ some n
unfolding value_of
value_of-decimal n h =
    ap (λ t. parse_uint u64_max (trim (trim_start_matches is_equals t)))
      (trim-NoSpace (b'=' ∷ decimal n) (equals_plain, plain))
    ∙ ap (λ t. parse_uint u64_max (trim t))
        (equals_dropped (decimal n) (no_equals (decimal n) (decimal-IsDigit n)))
    ∙ ap (λ t. parse_uint u64_max t) (trim-NoSpace (decimal n) plain)
    ∙ parse_uint-decimal u64_max n h
  where
    plain : NoSpace (decimal n)
    plain = digits_NoSpace (decimal n) (decimal-IsDigit n)

    equals_plain : is_whitespace b'=' ≡ false
    equals_plain = unfold is_whitespace in refl

    equals_dropped :
        (s : Text)
        → trim_start_matches is_equals s ≡ s
        → trim_start_matches is_equals (b'=' ∷ s) ≡ s
    equals_dropped s e = unfold trim_start_matches is_equals in e

module _ (window last : ℕ) (window_bound : window ≤ u64_max) (last_bound : last ≤ u64_max) where
  abbrev stored : List Text
  stored = (codes "window_secs=" ++ decimal window) ∷ (codes "last_checkin=" ++ decimal last) ∷ []

  lines_stored : lines (deadman_text window last) ≡ stored
  unfolding deadman_text
  lines_stored =
      lines-cons (codes "window_secs=" ++ decimal window)
        ((codes "last_checkin=" ++ decimal last) ++ b'\n' ∷ [])
        (All-append _ (codes "window_secs=") (decimal window) (ground arith)
          (digits_lack b'\n' _ (λ k. ground arith) (decimal-IsDigit window)))
        (All-append _ (codes "window_secs=") (decimal window) (ground arith)
          (digits_lack b'\r' _ (λ k. ground arith) (decimal-IsDigit window)))
      ∙ ap (λ ls. (codes "window_secs=" ++ decimal window) ∷ ls)
          (lines-cons (codes "last_checkin=" ++ decimal last) []
              (All-append _ (codes "last_checkin=") (decimal last) (ground arith)
                (digits_lack b'\n' _ (λ k. ground arith) (decimal-IsDigit last)))
              (All-append _ (codes "last_checkin=") (decimal last) (ground arith)
                (digits_lack b'\r' _ (λ k. ground arith) (decimal-IsDigit last)))
            ∙ ap (λ ls. (codes "last_checkin=" ++ decimal last) ∷ ls) (unfold lines in refl))

  find_window : find_value (codes "window_secs") stored ≡ some window
  unfolding find_value strip_prefix
  find_window =
      ap
        (λ o. elim o [
          | some n ↦ some n
          | none ↦ find_value (codes "window_secs") ((codes "last_checkin=" ++ decimal last) ∷ [])
        ])
        (value_of-decimal window window_bound)

  find_last : find_value (codes "last_checkin") stored ≡ some last
  unfolding find_value strip_prefix value_of
  find_last =
      ap (λ (o : Option ℕ). elim o [ some n ↦ some n | none ↦ none ])
        (value_of-decimal last last_bound)

  -- The state that `deadman` and `checkin` write is read back, where both numbers fit 64 bits.
  pub read_deadman-text : read_deadman (text (deadman_text window last)) ≡ some (window, last)
  unfolding read_deadman deadman_of pair_of
  read_deadman-text = rw (lines_stored, find_window, find_last) refl
