-- ===== src/Text/Laws.antt =====
-- Lemmas on trimming, splitting and lines, for the round trips of the files that the crates write.
use deathstr0ke.Base.{
  ℕ, ◌≡◌, ◌≢◌, refl, ◌∙◌, ap, true, false, [], ◌∷◌, ◌++◌, some, arith, ◌==◌, All, append-nil,
  append_assoc, ◌↔◌, All-reverse,
}
use deathstr0ke.Text.{
  Text, text_eq, is_whitespace, trim_start_matches, trim_end_matches, trim_start, trim, cut, split,
  once, split_once,
}
use mathlib.Core.List.{reverse, reverse-append, reverse-reverse}

-- Two texts are the same exactly if the test says so.
pub text_eq_iff : (s t : Text) → (text_eq s t ≡ true) ↔ (s ≡ t)
text_eq_iff [] [] = ground arith
text_eq_iff [] (d ∷ t) = ground arith
text_eq_iff (c ∷ s) [] = ground arith
text_eq_iff (c ∷ s) (d ∷ t) = ground (arith, text_eq_iff s t)

pub text_eq_refl : (s : Text) → text_eq s s ≡ true
text_eq_refl s = (text_eq_iff s s).1 refl

-- What a text's ends must be for `trim` to leave it alone.
abbrev pub Solid : Text → Type 0
Solid [] = Unit
Solid (c ∷ s) = is_whitespace c ≡ false

trim_start_matches-Solid : (s : Text) → Solid s → trim_start_matches is_whitespace s ≡ s
unfolding trim_start_matches
trim_start_matches-Solid [] h = refl
trim_start_matches-Solid (c ∷ s) h = rw h

pub trim-Solid : (s : Text) → Solid s → Solid (reverse s) → trim s ≡ s
unfolding trim trim_end_matches trim_start
trim-Solid s h k =
    rw (trim_start_matches-Solid s h, trim_start_matches-Solid (reverse s) k) (reverse-reverse s)

abbrev pub Lacks : ℕ → Text → Type 0
Lacks c s = All (λ d. (d == c) ≡ false) s

cut-append :
    (sep : ℕ) (cur s rest : Text)
    → Lacks sep s
    → cut sep cur (s ++ sep ∷ rest) ≡ (cur ++ s) ∷ cut sep [] rest
unfolding cut
cut-append sep cur [] rest h = ground (arith, append-nil cur)
cut-append sep cur (c ∷ s) rest h =
    ground (arith, cut-append sep (cur ++ c ∷ []) s rest h.1, append_assoc cur (c ∷ []) s)

-- The first part of a split ends at the first separator.
pub split-append :
    (sep : ℕ) (s rest : Text) → Lacks sep s → split sep (s ++ sep ∷ rest) ≡ s ∷ split sep rest
split-append sep s rest h = unfold split in cut-append sep [] s rest h

cut-last : (sep : ℕ) (cur s : Text) → Lacks sep s → cut sep cur s ≡ (cur ++ s) ∷ []
unfolding cut
cut-last sep cur [] h = rw append-nil
cut-last sep cur (c ∷ s) h =
    ground (arith, cut-last sep (cur ++ c ∷ []) s h.1, append_assoc cur (c ∷ []) s)

pub split-last : (sep : ℕ) (s : Text) → Lacks sep s → split sep s ≡ s ∷ []
unfolding split
split-last sep s h = cut-last sep [] s h

once-append :
    (sep : ℕ) (cur s rest : Text)
    → Lacks sep s
    → once sep cur (s ++ sep ∷ rest) ≡ some (cur ++ s, rest)
unfolding once
once-append sep cur [] rest h = ground (arith, append-nil cur)
once-append sep cur (c ∷ s) rest h =
    ground (arith, once-append sep (cur ++ c ∷ []) s rest h.1, append_assoc cur (c ∷ []) s)

pub split_once-append :
    (sep : ℕ) (s rest : Text) → Lacks sep s → split_once sep (s ++ sep ∷ rest) ≡ some (s, rest)
unfolding split_once
split_once-append sep s rest h = once-append sep [] s rest h

-- A text with no white space in it.
abbrev pub NoSpace : Text → Type 0
NoSpace s = All (λ c. is_whitespace c ≡ false) s

NoSpace-Solid : (s : Text) → NoSpace s → Solid s
NoSpace-Solid [] h = tt
NoSpace-Solid (c ∷ s) h = h.0

pub trim-NoSpace : (s : Text) → NoSpace s → trim s ≡ s
trim-NoSpace s h = trim-Solid s (NoSpace-Solid s h) (NoSpace-Solid (reverse s) (All-reverse _ s h))

newline_is_whitespace : is_whitespace b'\n' ≡ true
unfolding is_whitespace
newline_is_whitespace = refl

-- The `\n` that the crates write behind a word is trimmed off when it is read.
pub trim-newline : (s : Text) → s ≢ [] → NoSpace s → trim (s ++ b'\n' ∷ []) ≡ s
trim-newline [] k h = absurd (k refl)
trim-newline (c ∷ s) k h =
    unfold trim trim_end_matches trim_start in
    rw (trim_start_matches-Solid (c ∷ s ++ b'\n' ∷ []) h.0, reverse-append (c ∷ s) (b'\n' ∷ []))
      (ap reverse (
          trim_start_matches_newline (reverse (c ∷ s))
            (NoSpace-Solid (reverse (c ∷ s)) (All-reverse _ (c ∷ s) h)))
        ∙ reverse-reverse (c ∷ s))
  where
    trim_start_matches_newline :
        (t : Text) → Solid t → trim_start_matches is_whitespace (b'\n' ∷ t) ≡ t
    trim_start_matches_newline t solid =
        unfold trim_start_matches in rw newline_is_whitespace (trim_start_matches-Solid t solid)
