-- ===== src/Text/Lines/Laws.antt =====
-- Lemmas on lines and words.
use deathstr0ke.Base.{
  ℕ, ◌≡◌, ◌≢◌, refl, sym, ap, ◌∙◌, true, false, [], ◌∷◌, ◌++◌, arith, ◌==◌, All-reverse,
  if◌then◌else◌, All, append-nil, append_assoc,
}
use deathstr0ke.Text.{Text, is_whitespace}
use deathstr0ke.Text.Laws.{Lacks}
use deathstr0ke.Text.Lines.{take_lines, drop_cr, lines, take_words, push_word, split_whitespace}
use mathlib.Core.List.{reverse, reverse-reverse}

take_lines-append :
    (cur s rest : Text)
    → Lacks b'\n' s
    → take_lines cur (s ++ b'\n' ∷ rest) ≡ drop_cr (cur ++ s) ∷ take_lines [] rest
unfolding take_lines
take_lines-append cur [] rest h = ground (arith, append-nil cur)
take_lines-append cur (c ∷ s) rest h =
    ground (arith, take_lines-append (cur ++ c ∷ []) s rest h.1, append_assoc cur (c ∷ []) s)

-- A line before `\n` is the first one.
pub lines-append :
    (s rest : Text) → Lacks b'\n' s → drop_cr s ≡ s → lines (s ++ b'\n' ∷ rest) ≡ s ∷ lines rest
unfolding lines
lines-append s rest h k = ground (arith, take_lines-append [] s rest h)

abbrev pub NoSpace : Text → Type 0
NoSpace s = All (λ c. is_whitespace c ≡ false) s

take_words-append :
    (cur s rest : Text) (c : ℕ)
    → NoSpace s
    → is_whitespace c ≡ true
    → take_words cur (s ++ c ∷ rest) ≡ push_word (cur ++ s) (take_words [] rest)
unfolding take_words
take_words-append cur [] rest c h w = ground (arith, append-nil cur)
take_words-append cur (d ∷ s) rest c h w =
    ground (arith, take_words-append (cur ++ d ∷ []) s rest c h.1 w, append_assoc cur (d ∷ []) s)

-- A word before white space is the first one.
pub split_whitespace-append :
    (s rest : Text) (c : ℕ)
    → NoSpace s
    → s ≢ []
    → is_whitespace c ≡ true
    → split_whitespace (s ++ c ∷ rest) ≡ s ∷ split_whitespace rest
unfolding split_whitespace push_word
split_whitespace-append [] rest c h k w = absurd (k refl)
split_whitespace-append (d ∷ s) rest c h k w = take_words-append [] (d ∷ s) rest c h w

drop_cr_of_Lacks : (s : Text) → Lacks b'\r' (reverse s) → drop_cr s ≡ s
unfolding drop_cr
drop_cr_of_Lacks s h = by_end (reverse s) refl h
  where
    by_end :
        (r : Text)
        → reverse s ≡ r
        → Lacks b'\r' r
        → (elim r [ [] ↦ [] | c ∷ t ↦ if c == b'\r' then reverse t else s ]) ≡ s
    by_end [] e k = ap reverse (sym e) ∙ reverse-reverse s
    by_end (c ∷ t) e k = rw k.0

-- A line that is written with a `\n` behind it and holds neither `\n` nor `\r` is read back whole.
pub lines-cons :
    (s rest : Text) → Lacks b'\n' s → Lacks b'\r' s → lines (s ++ b'\n' ∷ rest) ≡ s ∷ lines rest
lines-cons s rest h k = lines-append s rest h (drop_cr_of_Lacks s (All-reverse _ s k))
