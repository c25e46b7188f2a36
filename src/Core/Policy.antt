-- ===== src/Core/Policy.antt =====
-- The attempt policy of ds-core/src/lib.rs, and the text that dsctl writes for it.
pub mod Bounds
pub mod RoundTrip
use deathstr0ke.Base.{
  ℕ, ◌≤◌, ◌<◌, ◌≡◌, Bool, true, false, ◌||◌, List, [], ◌∷◌, ◌++◌, ltb, leb, ◌==◌, if◌then◌else◌,
  Result, ok, err, ◌>>=◌, ◌>>◌, expect_some, bail_if, refl,
}
use deathstr0ke.Text.{Text, codes, text_eq, trim, split_once}
use deathstr0ke.Text.Lines.{lines}
use deathstr0ke.Text.Numbers.{u32_max, u64_max, parse_uint, decimal}

abbrev pub max_wipe_at : ℕ
max_wipe_at = 20

abbrev pub max_lockout_delay_secs : ℕ
max_lockout_delay_secs = 3600

pub record Policy : Type 0 where
  pub lockout_at : ℕ
  pub wipe_at : ℕ
  pub lockout_delay : ℕ
  pub max_prompts : ℕ

abbrev pub default_policy : Policy
default_policy = record { lockout_at = 3; wipe_at = 5; lockout_delay = 0; max_prompts = 5 }

is_refused : Policy → Bool
is_refused p =
    p.lockout_at == 0
    || leb p.wipe_at p.lockout_at
    || ltb max_wipe_at p.wipe_at
    || p.max_prompts == 0
    || ltb max_wipe_at p.max_prompts
    || ltb p.max_prompts p.wipe_at
    || ltb max_lockout_delay_secs p.lockout_delay

unfoldable pub validate : Policy → Result Policy
unfolding is_refused
validate p = do bail_if (is_refused p) "invalid policy"; ok p

-- A value of `u32` or of `u64`.
set_key : Text → Text → Policy → Result Policy
unfolding parse_uint
set_key key value p =
    if text_eq key (codes "lockout_at")
    then (do
      n ← expect_some "bad lockout_at" (parse_uint u32_max value)
      ok (record p { lockout_at = n }))
    else if text_eq key (codes "wipe_at")
    then (do
      n ← expect_some "bad wipe_at" (parse_uint u32_max value)
      ok (record p { wipe_at = n }))
    else if text_eq key (codes "lockout_delay")
    then (do
      n ← expect_some "bad lockout_delay" (parse_uint u64_max value)
      ok (record p { lockout_delay = n }))
    else if text_eq key (codes "max_prompts")
    then (do
      n ← expect_some "bad max_prompts" (parse_uint u32_max value)
      ok (record p { max_prompts = n }))
    else err "unknown policy key"

-- An empty line, or a comment.
is_skipped : Text → Bool
is_skipped [] = true
is_skipped (c ∷ s) = c == b'#'

parse_line : Text → Policy → Result Policy
unfolding set_key is_skipped trim split_once
parse_line raw p =
    let line = trim raw in
    if is_skipped line then ok p else do
      pair ← expect_some "policy lines must be key=value" (split_once b'=' line)
      set_key (trim pair.0) (trim pair.1) p

parse_lines : List Text → Policy → Result Policy
unfolding parse_line
parse_lines [] p = ok p
parse_lines (raw ∷ rest) p = do q ← parse_line raw p; parse_lines rest q

unfoldable pub parse : Text → Result Policy
unfolding parse_lines validate lines
parse text = do p ← parse_lines (lines text) default_policy; validate p

abbrev key_line : Text → ℕ → Text → Text
key_line key n rest = key ++ (b'=' ∷ (decimal n ++ (b'\n' ∷ rest)))

-- The `format!` of `set_duress` and of `sync_esp_state`.
unfoldable pub config_text : Policy → Text
unfolding decimal
config_text p = key_line (codes "lockout_at") p.lockout_at (
    key_line (codes "wipe_at") p.wipe_at (
      key_line (codes "lockout_delay") p.lockout_delay
        (key_line (codes "max_prompts") p.max_prompts [])))

-- `policy_is_strict_and_bounded` of the source's tests.
strict_and_bounded :
    (parse (codes "lockout_at=3\nwipe_at=5\nlockout_delay=0\nmax_prompts=5\n") ≡ ok default_policy)
    × (parse (codes "lockout_at=0\nwipe_at=5\nmax_prompts=5\n") ≡ err "invalid policy")
    × (parse (codes "lockout_at=3\nwipe_at=5\nunknown=1\n") ≡ err "unknown policy key")
unfolding parse
strict_and_bounded = (refl, refl, refl)
