-- ===== src/Dsctl/PamStack.antt =====
-- `arm_pam_stack` of dsctl/src/main.rs and its helpers: the module's three rules are written into
-- the PAM stack, and the jumps that cross them are raised.
pub mod Marked
pub mod Controls
pub mod Places
pub mod Jumps
use deathstr0ke.Base.{
  ℕ, zero, suc, ◌+◌, ◌%◌, ◌^◌, ◌≡◌, refl, Bool, true, false, not, ◌&&◌, List, [], ◌∷◌, ◌++◌, Option,
  none, some, leb, ◌==◌, any, Result, ok, err, ◌>>=◌, ◌>>◌, bail_if, expect_some, if◌then◌else◌,
}
use deathstr0ke.Text.{
  Text, codes, text_eq, trim_start, trim_start_matches, starts_with, contains_text,
}
use deathstr0ke.Text.Lines.{lines, split_whitespace}
use deathstr0ke.Text.Numbers.{u64_max, decimal, parse_uint}
use deathstr0ke.Text.Search.{find, take, drop, joined}

abbrev pub pam_module : Text
pam_module = codes "/usr/lib/security/pam_ds.so"

abbrev pub arm_marker : Text
arm_marker = codes "deathstr0ke-arm"

is_dash : ℕ → Bool
is_dash c = c == b'-'

first_is : Text → List Text → Bool
first_is word [] = false
first_is word (w ∷ ws) = text_eq w word

unfoldable pub is_auth_rule : Text → Bool
unfolding is_dash first_is trim_start trim_start_matches split_whitespace
is_auth_rule line =
    first_is (codes "auth") (split_whitespace (trim_start_matches is_dash (trim_start line)))

unfoldable pub is_digit : ℕ → Bool
is_digit c = leb b'0' c && leb c b'9'

unfoldable pub take_digits : Text → Text
take_digits [] = []
take_digits (c ∷ s) = let rest = take_digits s in if is_digit c then c ∷ rest else []

unfoldable pub drop_digits : Text → Text
drop_digits [] = []
drop_digits (c ∷ s) = let rest = drop_digits s in if is_digit c then rest else c ∷ s

-- `usize` is 64 bits wide.
unfoldable pub number_of : Text → Option ℕ
unfolding parse_uint
number_of [] = none
number_of (c ∷ s) = parse_uint u64_max (c ∷ s)

abbrev pub control : Text
control = codes "success="

unfoldable pub success_jump : Text → Option ℕ
success_jump line = elim (find control line) [
  | none ↦ none
  | some start ↦ number_of (take_digits (drop 8 (drop start line)))
]

unfoldable pub replace_digits : Text → Text → Result Text
replace_digits replaced [] = err "success control is not numeric"
replace_digits replaced (c ∷ digits) = ok replaced

unfoldable pub replace_success_jump : Text → ℕ → Result Text
replace_success_jump line value = elim (find control line) [
  | none ↦ err "no success control"
  | some start ↦
      let rest : Text = drop 8 (drop start line) in
      replace_digits (take start line ++ control ++ (decimal value ++ drop_digits rest))
        (take_digits rest)
]

-- The positions of the lines that pass a test, from `n` on.
positions : (Text → Bool) → ℕ → List Text → List ℕ
positions p n [] = []
positions p n (line ∷ rest) =
    let others = positions p (suc n) rest in if p line then n ∷ others else others

-- A position that was found is in range.
unfoldable pub line_at : List Text → ℕ → Text
line_at [] n = []
line_at (line ∷ rest) zero = line
line_at (line ∷ rest) (suc n) = line_at rest n

set_at : ℕ → Text → List Text → List Text
set_at n new [] = []
set_at zero new (line ∷ rest) = new ∷ rest
set_at (suc n) new (line ∷ rest) = line ∷ set_at n new rest

unfoldable pub insert_at : ℕ → Text → List Text → List Text
insert_at zero new ls = new ∷ ls
insert_at (suc n) new [] = new ∷ []
insert_at (suc n) new (line ∷ rest) = line ∷ insert_at n new rest

next_index : Option ℕ → Option ℕ
next_index none = none
next_index (some n) = some (suc n)

-- `iter().position`, and `iter().find_map` with the same test.
position : (ℕ → Bool) → List ℕ → Option ℕ
unfolding next_index
position p [] = none
position p (i ∷ is) = let later = position p is in if p i then some 0 else next_index later

find_first : (ℕ → Bool) → List ℕ → Option ℕ
find_first p [] = none
find_first p (i ∷ is) = let later = find_first p is in if p i then some i else later

is_faillock : Text → Text → Bool
unfolding contains_text split_whitespace
is_faillock word line =
    contains_text (codes "pam_faillock.so") line
    && any (λ w. text_eq w word) (split_whitespace line)

-- A rule's jump, where it reaches the rule at `fail` or one behind it, is raised by one.
unfoldable pub raise_jump : ℕ → ℕ → Text → Result Text
raise_jump fail index line = elim (success_jump line) [
  | none ↦ ok line
  | some jump ↦
      if leb fail ((index + jump) % 2 ^ 64)
      then replace_success_jump line ((jump + 1) % 2 ^ 64)
      else ok line
]

raise_jumps : ℕ → ℕ → List ℕ → List Text → Result (List Text)
unfolding raise_jump line_at set_at
raise_jumps fail index [] ls = ok ls
raise_jumps fail index (raw ∷ rest) ls = do
  line ← raise_jump fail index (line_at ls raw)
  raise_jumps fail (suc index) rest (set_at raw line ls)

abbrev pub preauth_rule : Text
preauth_rule =
    codes "auth       [success=ignore ignore=ignore default=die] "
    ++ pam_module
    ++ codes " # "
    ++ arm_marker

abbrev pub authfail_rule : Text
authfail_rule =
    codes "auth       [default=die]               "
    ++ pam_module
    ++ codes " authfail # "
    ++ arm_marker

abbrev authsucc_rule : Text
authsucc_rule =
    codes "auth       optional                    "
    ++ pam_module
    ++ codes " authsucc # "
    ++ arm_marker

-- The three insertions, at raw positions of the lines before them.
pub insert_rules : (first fail_raw succ_raw : ℕ) → List Text → List Text
unfolding insert_at
insert_rules first fail_raw succ_raw ls = insert_at first preauth_rule (
    insert_at (suc (if leb fail_raw succ_raw then suc succ_raw else succ_raw)) authsucc_rule
      (insert_at fail_raw authfail_rule ls))

first_position : List ℕ → Option ℕ
first_position [] = none
first_position (i ∷ is) = some i

unfoldable pub arm_pam_stack : Text → Result Text
unfolding positions first_position position find_first contains_text is_faillock raise_jumps
    insert_rules line_at
arm_pam_stack content = do
  bail_if (contains_text arm_marker content) "PAM stack is already marked armed"
  let ls : List Text = lines content
  let auth : List ℕ = positions is_auth_rule 0 ls
  first ← expect_some "PAM stack has no auth rules" (first_position auth)
  unix ←
      expect_some "unsupported PAM stack: no pam_unix auth rule"
        (position (λ i. contains_text (codes "pam_unix.so") (line_at ls i)) auth)
  fail ←
      expect_some "unsupported PAM stack: no pam_faillock authfail rule"
        (position (λ i. is_faillock (codes "authfail") (line_at ls i)) auth)
  succ_raw ←
      expect_some "unsupported PAM stack: no pam_faillock authsucc rule"
        (find_first (λ i. is_faillock (codes "authsucc") (line_at ls i)) auth)
  bail_if (leb fail unix) "unsupported PAM order: authfail is not after pam_unix"
  raised ← raise_jumps fail 0 (take fail auth) ls
  fail_raw ← expect_some "out of range" (first_position (drop fail auth))
  ok (joined (insert_rules first fail_raw succ_raw raised))

-- The source's own test.
abbrev arch_system_auth : Text
arch_system_auth =
    codes
      "#%PAM-1.0\nauth       required                    pam_faillock.so      preauth\n-auth      [success=2 default=ignore]  pam_systemd_home.so\nauth       [success=1 default=bad]     pam_unix.so          try_first_pass nullok\nauth       [default=die]               pam_faillock.so      authfail\nauth       optional                    pam_permit.so\nauth       required                    pam_env.so\nauth       required                    pam_faillock.so      authsucc\naccount    required                    pam_unix.so\n"

source_armed :
    arm_pam_stack arch_system_auth
    ≡ ok (
        codes
          "#%PAM-1.0\nauth       [success=ignore ignore=ignore default=die] /usr/lib/security/pam_ds.so # deathstr0ke-arm\nauth       required                    pam_faillock.so      preauth\n-auth      [success=3 default=ignore]  pam_systemd_home.so\nauth       [success=2 default=bad]     pam_unix.so          try_first_pass nullok\nauth       [default=die]               /usr/lib/security/pam_ds.so authfail # deathstr0ke-arm\nauth       [default=die]               pam_faillock.so      authfail\nauth       optional                    pam_permit.so\nauth       required                    pam_env.so\nauth       required                    pam_faillock.so      authsucc\nauth       optional                    /usr/lib/security/pam_ds.so authsucc # deathstr0ke-arm\naccount    required                    pam_unix.so\n")
unfolding arm_pam_stack is_auth_rule lines joined raise_jump success_jump replace_success_jump
    replace_digits take_digits drop_digits number_of is_digit find decimal parse_uint starts_with
source_armed = refl
