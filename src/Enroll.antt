-- ===== src/Enroll.antt =====
-- The policy options of `dsctl set-duress`, and the stored policy that dsctl reads: dsctl/src/main.rs.
pub mod Stored
use deathstr0ke.Base.{
  ℕ, Bool, List, [], ◌∷◌, if◌then◌else◌, any, ltb, Result, ok, err, ◌>>=◌, ◌>>◌, expect_some,
  bail_if, context,
}
use deathstr0ke.Text.{Text, codes, text_eq}
use deathstr0ke.Text.Numbers.{u32_max, u64_max, parse_uint}
use deathstr0ke.Files.{File, missing, unreadable, text}
use deathstr0ke.Core.Policy.{Policy, default_policy, validate, parse}

-- A missing file is the default policy.
unfoldable pub read_policy : File → Result Policy
unfolding parse
read_policy missing = ok default_policy
read_policy unreadable = err "read config"
read_policy (text s) = context "invalid local policy" (parse s)

-- One option, of `u32` or of `u64`.
set_option : Text → Text → Policy → Result Policy
unfolding parse_uint
set_option name value p =
    if text_eq name (codes "--lockout-at")
    then (do
      n ← expect_some "invalid --lockout-at" (parse_uint u32_max value)
      ok (record p { lockout_at = n }))
    else if text_eq name (codes "--wipe-at")
    then (do
      n ← expect_some "invalid --wipe-at" (parse_uint u32_max value)
      ok (record p { wipe_at = n }))
    else if text_eq name (codes "--lockout-delay")
    then (do
      n ← expect_some "invalid --lockout-delay" (parse_uint u64_max value)
      ok (record p { lockout_delay = n }))
    else if text_eq name (codes "--max-prompts")
    then (do
      n ← expect_some "invalid --max-prompts" (parse_uint u32_max value)
      ok (record p { max_prompts = n }))
    else err "unknown set-duress option"

has_seen : List Text → Text → Bool
has_seen seen name = any (λ s. text_eq s name) seen

-- The loop over the options: the policy, and the names that were seen.
take_options : List Text → List Text → Policy → Result (Policy × List Text)
unfolding set_option has_seen
take_options [] seen p = ok (p, seen)
take_options (name ∷ []) seen p = do
  bail_if (has_seen seen name) "duplicate policy option"
  err "missing value"
take_options (name ∷ value ∷ rest) seen p = do
  bail_if (has_seen seen name) "duplicate policy option"
  q ← set_option name value p
  take_options rest (name ∷ seen) q

-- Where `--max-prompts` was not given, it is raised to the wipe line.
raise_prompts : Bool → Policy → Policy
raise_prompts given p =
    if given
    then p
    else if ltb p.max_prompts p.wipe_at
    then record p { max_prompts = p.wipe_at }
    else p

drop_first : List Text → List Text
drop_first [] = []
drop_first (a ∷ rest) = rest

unfoldable pub enrollment_policy : List Text → Result Policy
unfolding take_options raise_prompts has_seen drop_first validate
enrollment_policy args = do
  taken ← take_options (drop_first args) [] default_policy
  validate (raise_prompts (has_seen taken.1 (codes "--max-prompts")) taken.0)
