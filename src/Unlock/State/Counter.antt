-- ===== src/Unlock/State/Counter.antt =====
-- The counter on the ESP is read back as it was written.
use deathstr0ke.Base.{
  ℕ, ◌≤◌, ◌≡◌, refl, ◌∙◌, ap, arith, true, [], ◌∷◌, Result, ok, err, All, Bool-cases, inl, inr,
  >>=-eq-ok,
}
use deathstr0ke.Text.{Text, is_whitespace, trim, text_eq}
use deathstr0ke.Text.Laws.{NoSpace, text_eq_iff}
use deathstr0ke.Text.Lines.{split_whitespace}
use deathstr0ke.Text.Lines.Laws.{split_whitespace-append}
use deathstr0ke.Text.Numbers.{u32_max, decimal}
use deathstr0ke.Text.Numbers.Decimal.{IsDigit, decimal-IsDigit, decimal-cons, parse_uint-decimal}
use deathstr0ke.Files.{File, missing, unreadable, text}
use deathstr0ke.Unlock.State.{
  Boot, read_count, count_of_words, count_text, compare_baked, compare_texts, verify_against_baked,
}

IsDigit-space : (s : Text) → All IsDigit s → NoSpace s
unfolding is_whitespace
IsDigit-space [] h = tt
IsDigit-space (c ∷ s) h = (ground arith, IsDigit-space s h.1)

words_of_count : (n : ℕ) → split_whitespace (count_text n) ≡ decimal n ∷ []
unfolding count_text
words_of_count n =
    split_whitespace-append (decimal n) [] b'\n' (IsDigit-space (decimal n) (decimal-IsDigit n))
      (decimal-cons n) newline
    ∙ ap (λ r. decimal n ∷ r) (unfold split_whitespace in refl)
  where
    newline : is_whitespace b'\n' ≡ true
    newline = unfold is_whitespace in refl

pub read_count-count_text : (n : ℕ) → n ≤ u32_max → read_count (text (count_text n)) ≡ ok n
unfolding read_count count_of_words
read_count-count_text n h = rw (words_of_count n, parse_uint-decimal u32_max n h)

-- A frozen record agrees with the one on the ESP: there is no frozen one, or both can be read and
-- are the same but for white space at their ends.
pub data Agrees : File → File → Type 0 where
  no_reference : {live : File} → Agrees missing live
  same : {b l : Text} → trim b ≡ trim l → Agrees (text b) (text l)

compare_texts_sound : (b l : Text) {u : Unit {0}} → compare_texts b l ≡ ok u → trim b ≡ trim l
unfolding compare_texts
compare_texts_sound b l {u} e = elim (Bool-cases (text_eq (trim b) (trim l))) [
  | inl yes_eq ↦ (text_eq_iff (trim b) (trim l)).0 yes_eq
  | inr no_eq ↦ absurd (false_ok (rw no_eq at e))
]
  where
    false_ok :
        {v : Unit {0}}
        → ◌≡◌ {A = Result (Unit {0})}
            (err "ESP record does not match the initramfs-baked reference")
            (ok v)
        → ⊥
    false_ok h = cc

compare_baked_sound : (b l : File) {u : Unit {0}} → compare_baked b l ≡ ok u → Agrees b l
unfolding compare_baked
compare_baked_sound missing l e = no_reference
compare_baked_sound unreadable l e = cc
compare_baked_sound (text b) missing e = cc
compare_baked_sound (text b) unreadable e = cc
compare_baked_sound (text b) (text l) e = same (compare_texts_sound b l e)

-- The tamper check passes only if each of the four frozen records agrees.
pub verify_against_baked_sound :
    (s : Boot) {u : Unit {0}}
    → verify_against_baked s ≡ ok u
    → Agrees s.baked.duress_hash s.live.duress_hash
      × Agrees s.baked.config s.live.config
      × Agrees s.baked.daily_slot s.live.daily_slot
      × Agrees s.baked.recovery_slot s.live.recovery_slot
unfolding verify_against_baked
verify_against_baked_sound s e =
    let (u, e₁, r₁) = >>=-eq-ok (compare_baked s.baked.duress_hash s.live.duress_hash) _ e in
    let (v, e₂, r₂) = >>=-eq-ok (compare_baked s.baked.config s.live.config) _ r₁ in
    let (t, e₃, e₄) = >>=-eq-ok (compare_baked s.baked.daily_slot s.live.daily_slot) _ r₂ in
    (
      compare_baked_sound _ _ e₁,
      compare_baked_sound _ _ e₂,
      compare_baked_sound _ _ e₃,
      compare_baked_sound _ _ e₄,
    )
