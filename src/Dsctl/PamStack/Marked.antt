-- ===== src/Dsctl/PamStack/Marked.antt =====
-- An armed PAM stack is marked.
use deathstr0ke.Base.{
  ℕ, zero, suc, ◌≡◌, refl, subst, true, List, [], ◌∷◌, Result, ok, >>=-eq-ok, bail_if, expect_some,
  leb,
}
use deathstr0ke.Text.{Text, codes, contains_text}
use deathstr0ke.Text.Lines.{lines}
use deathstr0ke.Text.Search.{take, drop, joined}
use deathstr0ke.Text.Search.Laws.{contains_text-append_l, contains_text-append_r}
use deathstr0ke.Dsctl.PamStack.{
  arm_marker, preauth_rule, insert_at, insert_rules, is_auth_rule, positions, position, find_first,
  first_position, line_at, is_faillock, raise_jumps, arm_pam_stack,
}

inserted :
    (n : ℕ) (new : Text) (ls : List Text)
    → contains_text arm_marker new ≡ true
    → contains_text arm_marker (joined (insert_at n new ls)) ≡ true
unfolding joined insert_at
inserted zero new ls h = contains_text-append_l arm_marker new (b'\n' ∷ joined ls) h
inserted (suc n) new [] h = contains_text-append_l arm_marker new _ h
inserted (suc n) new (l ∷ ls) h =
    contains_text-append_r arm_marker l _
      (contains_text-append_r arm_marker (b'\n' ∷ []) _ (inserted n new ls h))

rule_marked : contains_text arm_marker preauth_rule ≡ true
unfolding contains_text
rule_marked = refl

rules_marked :
    (first fail succ : ℕ) (ls : List Text)
    → contains_text arm_marker (joined (insert_rules first fail succ ls)) ≡ true
unfolding insert_rules
rules_marked first fail succ ls = inserted first preauth_rule _ rule_marked

-- A stack that is armed is marked, so that `arm` refuses it and `disarm` restores it.
pub arm_pam_stack-marked :
    (content : Text) {updated : Text}
    → arm_pam_stack content ≡ ok updated
    → contains_text arm_marker updated ≡ true
unfolding arm_pam_stack
arm_pam_stack-marked content {updated} h =
    let ls : List Text = lines content in
    let auth : List ℕ = positions is_auth_rule 0 ls in
    let (_, fresh, h1) =
      >>=-eq-ok (bail_if (contains_text arm_marker content) "PAM stack is already marked armed") _
        {end = updated} h in
    let (first, found, h2) =
      >>=-eq-ok (expect_some "PAM stack has no auth rules" (first_position auth)) _ {end = updated}
        h1 in
    let (unix, unix_at, h3) =
      >>=-eq-ok
        (expect_some "unsupported PAM stack: no pam_unix auth rule"
          (position (λ i. contains_text (codes "pam_unix.so") (line_at ls i)) auth))
        _ {end = updated} h2 in
    let (fail, fail_at, h4) =
      >>=-eq-ok
        (expect_some "unsupported PAM stack: no pam_faillock authfail rule"
          (position (λ i. is_faillock (codes "authfail") (line_at ls i)) auth))
        _ {end = updated} h3 in
    let (succ_raw, succ_at, h5) =
      >>=-eq-ok
        (expect_some "unsupported PAM stack: no pam_faillock authsucc rule"
          (find_first (λ i. is_faillock (codes "authsucc") (line_at ls i)) auth))
        _ {end = updated} h4 in
    let (_, order, h6) =
      >>=-eq-ok (bail_if (leb fail unix) "unsupported PAM order: authfail is not after pam_unix") _
        {end = updated} h5 in
    let (raised, raised_by, h7) =
      >>=-eq-ok (raise_jumps fail 0 (take fail auth) ls) _ {end = updated} h6 in
    let (fail_raw, fail_raw_at, h8) =
      >>=-eq-ok (expect_some "out of range" (first_position (drop fail auth))) _ {end = updated}
        h7 in
    subst (λ t. contains_text arm_marker t ≡ true) (same h8)
      (rules_marked first fail_raw succ_raw raised)
  where
    same : {a b : Text} → ◌≡◌ {A = Result Text} (ok a) (ok b) → a ≡ b
    same e = cc
