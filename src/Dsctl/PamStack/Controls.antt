-- ===== src/Dsctl/PamStack/Controls.antt =====
-- The number of a rule's success control, read and replaced.
use deathstr0ke.Base.{
  ℕ, ◌≤◌, ◌≡◌, refl, ap, ◌∙◌, subst, [], ◌∷◌, ◌++◌, Option, none, some, Result, ok, err, arith, All,
}
use deathstr0ke.Text.{Text}
use deathstr0ke.Text.Numbers.{u64_max, decimal, parse_uint}
use deathstr0ke.Text.Numbers.Decimal.{IsDigit, decimal-IsDigit, parse_uint-decimal}
use deathstr0ke.Text.Search.{find, take, drop}
use deathstr0ke.Text.Search.Laws.{find_prefix, drop_prefix}
use deathstr0ke.Dsctl.PamStack.{
  control, is_digit, take_digits, drop_digits, number_of, success_jump, replace_digits,
  replace_success_jump,
}

-- The digits in front of what does not begin with one.
take_digits-append : (d s : Text) → All IsDigit d → take_digits (d ++ drop_digits s) ≡ d
unfolding take_digits drop_digits is_digit
take_digits-append [] [] h = refl
take_digits-append [] (c ∷ s) h = ground (arith, take_digits-append [] s tt)
take_digits-append (c ∷ d) s h = ground (arith, take_digits-append d s h.1)

number_of-decimal : (value : ℕ) → value ≤ u64_max → number_of (decimal value) ≡ some value
unfolding number_of
number_of-decimal value bound = by_form (decimal value) (parse_uint-decimal u64_max value bound)
  where
    by_form : (d : Text) → parse_uint u64_max d ≡ some value → number_of d ≡ some value
    by_form [] e = unfold parse_uint in cc
    by_form (c ∷ d) e = e

-- A line whose jump was replaced has the new jump.
success_jump-replaced :
    (line rest : Text) (value k : ℕ)
    → value ≤ u64_max
    → find control line ≡ some k
    → success_jump (take k line ++ control ++ (decimal value ++ drop_digits rest)) ≡ some value
unfolding success_jump
success_jump-replaced line rest value k bound e =
    rw (success_jump, find_prefix control line (decimal value ++ drop_digits rest) e)
      (ap (λ t. number_of (take_digits (drop 8 t)))
          (drop_prefix control line (decimal value ++ drop_digits rest) e)
        ∙ ap number_of (take_digits-append (decimal value) rest (decimal-IsDigit value))
        ∙ number_of-decimal value bound)

pub success_jump-replace_success_jump :
    (line : Text) (value : ℕ) {new : Text}
    → value ≤ u64_max
    → replace_success_jump line value ≡ ok new
    → success_jump new ≡ some value
unfolding replace_success_jump
success_jump-replace_success_jump line value {new} bound h = by_place (find control line) refl h
  where
    same : {a b : Text} → ◌≡◌ {A = Result Text} (ok a) (ok b) → a ≡ b
    same e = cc

    by_digits :
        (k : ℕ) (rest digits : Text)
        → find control line ≡ some k
        → replace_digits (take k line ++ control ++ (decimal value ++ drop_digits rest)) digits
          ≡ ok new
        → success_jump new ≡ some value
    by_digits k rest [] e d = unfold replace_digits in cc
    by_digits k rest (c ∷ digits) e d =
        unfold replace_digits in
        subst (λ t. success_jump t ≡ some value) (same d)
          (success_jump-replaced line rest value k bound e)

    by_place :
        (o : Option ℕ)
        → find control line ≡ o
        → ◌≡◌ {A = Result Text}
            (elim o [
              | none ↦ err "no success control"
              | some start ↦
                  let rest : Text = drop 8 (drop start line) in
                  replace_digits
                    (take start line ++ control ++ (decimal value ++ drop_digits rest))
                    (take_digits rest)
            ])
            (ok new)
        → success_jump new ≡ some value
    by_place none e d = cc
    by_place (some k) e d = by_digits k _ _ e d
