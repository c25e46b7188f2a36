-- ===== src/Dsctl/Arm.antt =====
-- `arm` of dsctl/src/main.rs: checks, then a transaction whose last step is the PAM stack, and its
-- rollback.
pub mod Commit
pub mod Restoring
pub mod Rollback
pub mod Outcome
pub mod Clearance
use deathstr0ke.Base.{
  ℕ, Bool, true, false, not, ◌&&◌, ◌||◌, List, [], ◌∷◌, Option, none, some, any, Result, ok, err,
  String, bail_if,
}
use deathstr0ke.Base
use deathstr0ke.Text.{Text, codes, contains_text}
use deathstr0ke.Files.{File, missing, unreadable, text, read_to_string, is_file}
use deathstr0ke.Effects.{Prog, ◌>>=◌, ◌>>◌, pure, fail, lift, act, query, attempt, when}
use deathstr0ke.Luks.{contains, insert}
use deathstr0ke.Dsctl.System.{
  Mkinitcpio, System, Esp, armed_text, set_auth, set_backup, set_conf, set_local, set_esp, rebuilt,
  half_built, run_mkinitcpio, sync_esp_state, ensure_deathstroke_hook_before_encrypt, Step,
  whole_step, try_all,
}
use deathstr0ke.Dsctl.PamStack.{arm_marker, arm_pam_stack}
use deathstr0ke.Dsctl.Registry.{read_known_slots, write_known_slots, difference}
use deathstr0ke.Dsctl.Machine.{Machine, Ready, check_ready, is_empty}

-- What a file is restored to.
snapshot_file : File → Result File
snapshot_file missing = ok missing
snapshot_file unreadable = err "snapshot"
snapshot_file (text t) = ok (text t)

unfoldable pub snapshot_esp : Esp → Result Esp
unfolding snapshot_file
snapshot_esp e = Base.◌>>=◌ (snapshot_file e.duress_hash) λ h.
    Base.◌>>=◌ (snapshot_file e.config) λ c. Base.◌>>=◌ (snapshot_file e.counter) λ n.
      Base.◌>>=◌ (snapshot_file e.daily_slot) λ d. Base.◌>>=◌ (snapshot_file e.recovery_slot) λ r.
        Base.◌>>=◌ (snapshot_file e.armed) λ a. ok (record {
          duress_hash = h;
          config = c;
          counter = n;
          daily_slot = d;
          recovery_slot = r;
          armed = a;
        })

unfoldable pub with_baseline : Ready → List ℕ → List ℕ
unfolding insert
with_baseline ready known = insert ready.recovery (insert ready.daily known)

module _ {m : Mkinitcpio} where
  -- The closure. PAM is the last commit point.
  unfoldable pub commit : Ready → Text → Prog (System m) (Unit {0})
  unfolding sync_esp_state ensure_deathstroke_hook_before_encrypt run_mkinitcpio
  commit ready updated = do
    sync_esp_state ready.verifier ready.policy ready.daily ready.recovery
    act "write armed marker" (set_local (text armed_text))
    ensure_deathstroke_hook_before_encrypt
    run_mkinitcpio
    act "write ESP armed marker" (set_esp (λ e. record e { armed = text armed_text }))
    act "write system-auth" (set_auth updated)

  -- The steps of the rollback, with the initramfs built again at the end.
  unfoldable pub rollback_steps : Text → Text → Esp → List (Step (System m))
  rollback_steps content conf old =
      whole_step "restore PAM" (set_auth content)
      ∷ whole_step "restore mkinitcpio.conf" (set_conf conf)
      ∷ whole_step "remove local armed marker" (set_local missing)
      ∷ whole_step "restore duress.hash" (set_esp (λ e. record e { duress_hash = old.duress_hash }))
      ∷ whole_step "restore config" (set_esp (λ e. record e { config = old.config }))
      ∷ whole_step "restore counter" (set_esp (λ e. record e { counter = old.counter }))
      ∷ whole_step "restore daily.slot" (set_esp (λ e. record e { daily_slot = old.daily_slot }))
      ∷ whole_step "restore recovery.slot"
          (set_esp (λ e. record e { recovery_slot = old.recovery_slot }))
      ∷ whole_step "restore armed" (set_esp (λ e. record e { armed = old.armed }))
      ∷ record { name = "rebuild rolled-back initramfs"; whole = rebuilt; partly = half_built }
      ∷ []

  unfoldable pub roll_back : Text → Text → Esp → Prog (System m) Bool
  unfolding try_all rollback_steps
  roll_back content conf old = try_all (rollback_steps content conf old)

  rolled_back : Bool → Prog (System m) (Unit {0})
  rolled_back true = fail "arm transaction rolled back"
  rolled_back false = fail "arm failed; rollback INCOMPLETE"

  -- The sealing of the boot image behind a committed transaction touches nothing that is modelled.
  settle : Text → Text → Esp → Result (Unit {0}) → Prog (System m) (Unit {0})
  unfolding roll_back rolled_back
  settle content conf old (ok u) = pure tt
  settle content conf old (err e) = do restored ← roll_back content conf old; rolled_back restored

  unfoldable pub arm_transaction : Ready → Text → Prog (System m) (Unit {0})
  unfolding arm_pam_stack snapshot_esp commit settle
  arm_transaction ready content = do
    updated ← lift (λ (s : System m). arm_pam_stack content)
    query "stat system-auth" (λ s. ok tt)
    act "write PAM backup" (set_backup content)
    conf ← lift (λ (s : System m). read_to_string "snapshot mkinitcpio.conf" s.mkinitcpio_conf)
    old ← lift (λ (s : System m). snapshot_esp s.esp)
    result ← attempt (commit ready updated)
    settle content conf old result

  -- Where PAM carries the marker, nothing is done; where only another marker stands, it is refused.
  unfoldable pub by_markers :
      Ready → Text → (pam local_marker esp_marker : Bool) → Prog (System m) (Unit {0})
  unfolding arm_transaction
  by_markers ready content true true true = pure tt
  by_markers ready content true true false =
      fail "PAM is marked armed but authorization markers are inconsistent"
  by_markers ready content true false esp_marker =
      fail "PAM is marked armed but authorization markers are inconsistent"
  by_markers ready content false true esp_marker =
      fail "authorization marker exists while PAM is unarmed"
  by_markers ready content false false true =
      fail "authorization marker exists while PAM is unarmed"
  by_markers ready content false false false = arm_transaction ready content

  complete : Ready → List ℕ → Bool → Prog (System m) (List ℕ)
  unfolding write_known_slots
  complete ready known true = do
    write_known_slots (with_baseline ready known)
    pure (with_baseline ready known)
  complete ready known false = pure known

  -- A registry without the two recorded slots is completed and written.
  unfoldable pub audit : Ready → Prog (System m) (List ℕ)
  unfolding complete
  audit ready = do
    known ← lift (λ (s : System m). ok (read_known_slots s.known_slots))
    complete ready known (not (contains known ready.daily) || not (contains known ready.recovery))

  unfoldable pub arm : Machine → Prog (System m) (Unit {0})
  unfolding check_ready audit difference is_empty contains_text by_markers
  arm host = do
    ready ← lift (λ (s : System m). check_ready host)
    known ← audit ready
    lift (λ (s : System m).
        bail_if (not (is_empty (difference ready.slots known)))
          "refusing to arm: a keyslot is active but NOT recorded by dsctl")
    content ← lift (λ (s : System m). read_to_string "read system-auth" s.system_auth)
    local_marker ← lift (λ (s : System m). ok (is_file s.local_armed))
    esp_marker ← lift (λ (s : System m). ok (is_file s.esp.armed))
    by_markers ready content (contains_text arm_marker content) local_marker esp_marker
