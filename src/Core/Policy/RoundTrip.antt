-- ===== src/Core/Policy/RoundTrip.antt =====
-- Writing a policy and reading it back.
use deathstr0ke.Base.{
  ℕ, ◌≤◌, ◌≡◌, refl, sym, ◌∙◌, ap, false, [], ◌∷◌, ◌++◌, arith, ◌==◌, All, All-append, append_assoc,
  ok, ◌>>=◌,
}
use deathstr0ke.Text.{Text, codes, is_whitespace}
use deathstr0ke.Text.Laws.{trim-NoSpace, split_once-append}
use deathstr0ke.Text.Lines.{lines}
use deathstr0ke.Text.Lines.Laws.{lines-cons}
use deathstr0ke.Text.Numbers.{u32_max, u64_max, decimal}
use deathstr0ke.Text.Numbers.Decimal.{IsDigit, decimal-IsDigit, parse_uint-decimal}
use deathstr0ke.Core.Policy.{
  Policy, parse, parse_line, parse_lines, set_key, is_skipped, config_text, key_line,
}
use deathstr0ke.Core.Policy.Bounds.{IsValid, validate_iff}

-- The characters of the keys and of the numbers.
abbrev IsWord : ℕ → Type 0
IsWord c =
    (is_whitespace c ≡ false)
    × ((c == b'=') ≡ false)
    × ((c == b'\n') ≡ false)
    × ((c == b'\r') ≡ false)
    × ((c == b'#') ≡ false)

All-map : {P Q : ℕ → Type 0} (s : Text) → ((c : ℕ) → P c → Q c) → All P s → All Q s
All-map [] f h = tt
All-map (c ∷ s) f (h, hs) = (f c h, All-map s f hs)

IsDigit-IsWord : (c : ℕ) → IsDigit c → IsWord c
unfolding is_whitespace
IsDigit-IsWord c h = ground arith

decimal-IsWord : (n : ℕ) → All IsWord (decimal n)
decimal-IsWord n = All-map (decimal n) IsDigit-IsWord (decimal-IsDigit n)

module _ (k : ℕ) (key : Text) (n : ℕ) (word : All IsWord (k ∷ key)) where
  abbrev line : Text
  line = (k ∷ key) ++ b'=' ∷ decimal n

  line-All : (P : ℕ → Type 0) → ((c : ℕ) → IsWord c → P c) → P b'=' → All P line
  line-All P f equals =
      All-append P (k ∷ key) (b'=' ∷ decimal n) (All-map (k ∷ key) f word)
        (equals, All-map (decimal n) f (decimal-IsWord n))

  -- The line of one key is the first line of the text.
  lines-key_line : (rest : Text) → lines (key_line (k ∷ key) n rest) ≡ line ∷ lines rest
  lines-key_line rest =
      ap lines (ap (λ t. k ∷ t) (key_assoc rest))
      ∙ lines-cons line rest (line-All (λ c. (c == b'\n') ≡ false) (λ c w. w.2) refl)
          (line-All (λ c. (c == b'\r') ≡ false) (λ c w. w.3) refl)
    where
      key_assoc :
          (r : Text)
          → key ++ (b'=' ∷ (decimal n ++ (b'\n' ∷ r))) ≡ (key ++ b'=' ∷ decimal n) ++ b'\n' ∷ r
      key_assoc r = sym (append_assoc key (b'=' ∷ decimal n) (b'\n' ∷ r))

  -- Reading it back sets the key to its number.
  parse_line-line : (p : Policy) → parse_line line p ≡ set_key (k ∷ key) (decimal n) p
  unfolding parse_line is_skipped is_whitespace
  parse_line-line p = rw (
    trim-NoSpace line (line-All (λ c. is_whitespace c ≡ false) (λ c w. w.0) refl),
    word.0.4,
    split_once-append b'=' (k ∷ key) (decimal n) (All-map (k ∷ key) (λ c w. w.1) word),
    trim-NoSpace (k ∷ key) (All-map (k ∷ key) (λ c w. w.0) word),
    trim-NoSpace (decimal n) (All-map (decimal n) (λ c w. w.0) (decimal-IsWord n)),
  )

abbrev IsKey : Text → Type 0
IsKey [] = ⊥
IsKey (k ∷ key) = All IsWord (k ∷ key)

-- One line of the text is one step of the reader.
parse_lines-key_line :
    (key : Text) (n : ℕ) (rest : Text) (p : Policy)
    → IsKey key
    → parse_lines (lines (key_line key n rest)) p
      ≡ (set_key key (decimal n) p >>= λ q. parse_lines (lines rest) q)
unfolding parse_lines
parse_lines-key_line [] n rest p word = absurd word
parse_lines-key_line (k ∷ key) n rest p word =
    rw (lines-key_line k key n word rest)
      (ap (λ r. r >>= λ q. parse_lines (lines rest) q) (parse_line-line k key n word p))

keys_IsKey :
    IsKey (codes "lockout_at")
    × IsKey (codes "wipe_at")
    × IsKey (codes "lockout_delay")
    × IsKey (codes "max_prompts")
unfolding is_whitespace
keys_IsKey = ground arith

module _ (n : ℕ) (p : Policy) where
  set_key-lockout_at :
      n ≤ u32_max → set_key (codes "lockout_at") (decimal n) p ≡ ok (record p { lockout_at = n })
  unfolding set_key
  set_key-lockout_at h = rw (parse_uint-decimal u32_max n h)

  set_key-wipe_at :
      n ≤ u32_max → set_key (codes "wipe_at") (decimal n) p ≡ ok (record p { wipe_at = n })
  unfolding set_key
  set_key-wipe_at h = rw (parse_uint-decimal u32_max n h)

  set_key-lockout_delay :
      n ≤ u64_max
      → set_key (codes "lockout_delay") (decimal n) p ≡ ok (record p { lockout_delay = n })
  unfolding set_key
  set_key-lockout_delay h = rw (parse_uint-decimal u64_max n h)

  set_key-max_prompts :
      n ≤ u32_max → set_key (codes "max_prompts") (decimal n) p ≡ ok (record p { max_prompts = n })
  unfolding set_key
  set_key-max_prompts h = rw (parse_uint-decimal u32_max n h)

-- A valid policy is read back from the text that dsctl writes for it.
pub parse-config_text : (p : Policy) → IsValid p → parse (config_text p) ≡ ok p
unfolding parse config_text
parse-config_text p v =
    rw
      (
        parse_lines-key_line (codes "lockout_at") p.lockout_at _ _ keys_IsKey.0,
        set_key-lockout_at p.lockout_at _ (omega arith),
        parse_lines-key_line (codes "wipe_at") p.wipe_at _ _ keys_IsKey.1,
        set_key-wipe_at p.wipe_at _ (omega arith),
        parse_lines-key_line (codes "lockout_delay") p.lockout_delay _ _ keys_IsKey.2,
        set_key-lockout_delay p.lockout_delay _ (omega arith),
        parse_lines-key_line (codes "max_prompts") p.max_prompts _ _ keys_IsKey.3,
        set_key-max_prompts p.max_prompts _ (omega arith),
      )
      ((validate_iff p p).1 (v, refl))
