-- ===== src/Dsctl/Machine/Sound.antt =====
-- What the checks of `arm` establish.
use deathstr0ke.Base.{
  ℕ, ◌≡◌, ◌≢◌, ◌≤◌, refl, subst, Bool, true, false, not, ◌||◌, Option, some, none, ltb, ◌==◌,
  Result, ok, err, >>=-eq-ok, context, expect_some, bail_if, arith, String,
}
use deathstr0ke.Text.{Text, trim}
use deathstr0ke.Text.Numbers.{u8_max, parse_uint}
use deathstr0ke.Files.{File, read_to_string, readable}
use deathstr0ke.Effects.Checks.{passed, passed_not}
use deathstr0ke.Core.Policy.{validate}
use deathstr0ke.Core.Policy.Bounds.{IsValid, validate_iff}
use deathstr0ke.Core.Verifier
use deathstr0ke.Core.Verifier.{DuressHash}
use deathstr0ke.Luks.{contains}
use deathstr0ke.Erase.Host.{configured_target}
use deathstr0ke.Enroll.{read_policy}
use deathstr0ke.Dsctl.Machine.{
  Machine, Ready, read_slot, require_root, guard_disposable, validate_luks_device, active_keyslots,
  check_ready,
}

context-ok : {A : Type 0} (e : String) (r : Result A) {a : A} → context e r ≡ ok a → r ≡ ok a
context-ok {A} e (ok b) h = cc
context-ok {A} e (err x) h = cc

bound_passed : (n : ℕ) (e : String) {u : Unit {0}} → bail_if (ltb 31 n) e ≡ ok u → n ≤ 31
bound_passed n e {u} h = ground (arith, passed (ltb 31 n) e {u = u} h)

pub read_slot_bound : (f : File) {n : ℕ} → read_slot f ≡ ok n → n ≤ 31
unfolding read_slot
read_slot_bound f {n} h =
    let (t, read, h1) = >>=-eq-ok (read_to_string "read slot" f) _ {end = n} h in
    let (k, parsed, h2) =
      >>=-eq-ok (expect_some "invalid keyslot metadata" (parse_uint u8_max (trim t))) _ {end = n}
        h1 in
    let (u, checked, h3) = >>=-eq-ok (bail_if (ltb 31 k) "keyslot outside 0..31") _ {end = n} h2 in
    same k h3 (bound_passed k _ checked)
  where
    same : (k : ℕ) → ◌≡◌ {A = Result ℕ} (ok k) (ok n) → k ≤ 31 → n ≤ 31
    same k e b = ground arith

-- A machine that may be armed.
pub record Clear (host : Machine) (ready : Ready) : Type 0 where
  pub root : host.root ≡ true
  pub disposable : host.disposable ≡ true
  pub deployed : host.module_deployed ≡ true
  pub verifier_read : read_to_string "read duress verifier" host.duress_hash ≡ ok ready.verifier
  pub verifier_parsed : (h : DuressHash) × (Verifier.parse ready.verifier ≡ ok h)
  pub policy_read : read_policy host.config ≡ ok ready.policy
  pub policy_valid : IsValid ready.policy
  pub target_recorded : configured_target (readable host.target_device) ≡ some ready.target
  pub daily_bound : ready.daily ≤ 31
  pub recovery_bound : ready.recovery ≤ 31
  pub distinct : ready.daily ≢ ready.recovery
  pub slots_read : active_keyslots host ready.target ≡ ok ready.slots
  pub daily_active : contains ready.slots ready.daily ≡ true
  pub recovery_active : contains ready.slots ready.recovery ≡ true

some_of : (e : String) (o : Option Text) {t : Text} → expect_some e o ≡ ok t → o ≡ some t
some_of e none h = cc
some_of e (some a) h = cc

pub check_ready-Clear :
    (host : Machine) {ready : Ready} → check_ready host ≡ ok ready → Clear host ready
unfolding check_ready
check_ready-Clear host {ready} h =
    let (u0, root, h1) = >>=-eq-ok (require_root host) _ {end = ready} h in
    let (u1, disposable, h2) = >>=-eq-ok (guard_disposable host) _ {end = ready} h1 in
    let (u2, deployed, h3) =
      >>=-eq-ok (bail_if (not host.module_deployed) "pam_ds.so not deployed") _ {end = ready} h2 in
    let (verifier, verifier_read, h4) =
      >>=-eq-ok (read_to_string "read duress verifier" host.duress_hash) _ {end = ready} h3 in
    let (hash, parsed, h5) =
      >>=-eq-ok (context "invalid duress verifier" (Verifier.parse verifier)) _ {end = ready} h4 in
    let (policy, policy_read, h6) = >>=-eq-ok (read_policy host.config) _ {end = ready} h5 in
    let (again, valid, h7) = >>=-eq-ok (validate policy) _ {end = ready} h6 in
    let (target, target_recorded, h8) =
      >>=-eq-ok
        (expect_some "no verified recovery target; run enroll-recovery"
          (configured_target (readable host.target_device)))
        _ {end = ready} h7 in
    let (u8, luks, h9) = >>=-eq-ok (validate_luks_device host target) _ {end = ready} h8 in
    let (daily, daily_read, h10) = >>=-eq-ok (read_slot host.daily_slot) _ {end = ready} h9 in
    let (recovery, recovery_read, h11) =
      >>=-eq-ok (read_slot host.recovery_slot) _ {end = ready} h10 in
    let (u11, differ, h12) =
      >>=-eq-ok (bail_if (daily == recovery) "daily and recovery slots must differ") _ {end = ready}
        h11 in
    let (slots, slots_read, h13) = >>=-eq-ok (active_keyslots host target) _ {end = ready} h12 in
    let (u13, both, h14) =
      >>=-eq-ok
        (bail_if (not (contains slots daily) || not (contains slots recovery))
          "recorded daily/recovery slots are not both active")
        _ {end = ready} h13 in
    subst (λ r. Clear host r) (same_ready h14)
      (record {
        root = unfold require_root in passed_not host.root _ root;
        disposable = unfold guard_disposable in passed_not host.disposable _ disposable;
        deployed = passed_not host.module_deployed _ deployed;
        verifier_read = verifier_read;
        verifier_parsed = (hash, context-ok _ (Verifier.parse verifier) parsed);
        policy_read = policy_read;
        policy_valid = ((validate_iff policy again).0 valid).0;
        target_recorded = some_of _ _ target_recorded;
        daily_bound = read_slot_bound host.daily_slot daily_read;
        recovery_bound = read_slot_bound host.recovery_slot recovery_read;
        distinct = differing daily recovery (passed (daily == recovery) _ differ);
        slots_read = slots_read;
        daily_active = (both_active (contains slots daily) (contains slots recovery) _ both).0;
        recovery_active = (both_active (contains slots daily) (contains slots recovery) _ both).1;
      })
  where
    same_ready : {a b : Ready} → ◌≡◌ {A = Result Ready} (ok a) (ok b) → a ≡ b
    same_ready e = cc

    differing : (a b : ℕ) → (a == b) ≡ false → a ≢ b
    differing a b h e = ground arith

    both_active :
        (a b : Bool) (e : String) {u : Unit {0}}
        → bail_if (not a || not b) e ≡ ok u
        → (a ≡ true) × (b ≡ true)
    both_active true true e h = (refl, refl)
    both_active true false e h = cc
    both_active false b e h = cc
