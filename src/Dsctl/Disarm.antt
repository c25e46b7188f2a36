-- ===== src/Dsctl/Disarm.antt =====
-- `disarm` of dsctl/src/main.rs, and its rollback.
pub mod Outcome
pub mod Undone
use deathstr0ke.Base.{
  Bool, true, false, not, List, [], ◌∷◌, ◌++◌, Option, none, some, Result, ok, err, String,
}
use deathstr0ke.Text.{Text, contains_text}
use deathstr0ke.Files.{File, missing, unreadable, text, read_to_string, is_file}
use deathstr0ke.Effects.{Prog, ◌>>=◌, ◌>>◌, pure, fail, lift, act, query, attempt}
use deathstr0ke.Dsctl.System.{
  Mkinitcpio, System, armed_text, set_auth, set_conf, set_local, set_esp, rebuilt, half_built,
  run_mkinitcpio, remove_deathstroke_hook, Step, whole_step, try_all,
}
use deathstr0ke.Dsctl.PamStack.{arm_marker}
use deathstr0ke.Dsctl.Machine.{Machine, require_root}

module _ {m : Mkinitcpio} where
  -- The backup is read only where PAM is armed.
  read_backup : Bool → Prog (System m) (Option Text)
  read_backup false = pure none
  read_backup true = do
    original ←
        lift (λ (s : System m).
          read_to_string "PAM backup missing; refusing a partial disarm" s.backup)
    pure (some original)

  restore_auth : Option Text → Prog (System m) (Unit {0})
  restore_auth none = pure tt
  restore_auth (some original) = act "write system-auth" (set_auth original)

  -- The closure.
  unfoldable pub withdraw : Option Text → Prog (System m) (Unit {0})
  unfolding restore_auth remove_deathstroke_hook run_mkinitcpio
  withdraw backup = do
    restore_auth backup
    act "remove armed marker" (set_local missing)
    act "remove ESP armed marker" (set_esp (λ e. record e { armed = missing }))
    remove_deathstroke_hook
    run_mkinitcpio

  step_if : Bool → Step (System m) → List (Step (System m)) → List (Step (System m))
  step_if true step steps = step ∷ steps
  step_if false step steps = steps

  auth_step : Option Text → Text → List (Step (System m)) → List (Step (System m))
  auth_step none content steps = steps
  auth_step (some original) content steps =
      whole_step "restore armed PAM" (set_auth content) ∷ steps

  unfoldable pub rearm_steps : Text → Bool → Bool → Option Text → Text → List (Step (System m))
  unfolding step_if auth_step
  rearm_steps conf local_was_armed esp_was_armed backup content =
      whole_step "restore mkinitcpio.conf" (set_conf conf)
      ∷ step_if local_was_armed
          (whole_step "restore local armed marker" (set_local (text armed_text)))
          (step_if esp_was_armed
            (whole_step "restore ESP armed marker"
              (set_esp (λ e. record e { armed = text armed_text })))
            (auth_step backup content (
              record {
                name = "rebuild restored armed initramfs";
                whole = rebuilt;
                partly = half_built;
              }
              ∷ [])))

  rearmed : Bool → Prog (System m) (Unit {0})
  rearmed true = fail "disarm failed; armed PAM, markers, and initramfs restored"
  rearmed false = fail "disarm failed; rollback INCOMPLETE"

  drop_backup : Option Text → Prog (System m) (Unit {0})
  drop_backup none = pure tt
  drop_backup (some original) =
      act "remove PAM backup" (λ (s : System m). record s { backup = missing })

  conclude_disarm :
      Text → Bool → Bool → Option Text → Text → Result (Unit {0}) → Prog (System m) (Unit {0})
  unfolding drop_backup try_all rearm_steps rearmed
  conclude_disarm conf l e backup content (ok u) = drop_backup backup
  conclude_disarm conf l e backup content (err x) = do
    restored ← try_all (rearm_steps conf l e backup content)
    rearmed restored

  unfoldable pub disarm : Machine → Prog (System m) (Unit {0})
  unfolding require_root contains_text read_backup withdraw conclude_disarm
  disarm host = do
    lift (λ (s : System m). require_root host)
    content ← lift (λ (s : System m). read_to_string "read system-auth" s.system_auth)
    backup ← read_backup (contains_text arm_marker content)
    query "stat system-auth" (λ s. ok tt)
    conf ← lift (λ (s : System m). read_to_string "snapshot mkinitcpio.conf" s.mkinitcpio_conf)
    query "stat mkinitcpio.conf" (λ s. ok tt)
    local_was_armed ← lift (λ (s : System m). ok (is_file s.local_armed))
    esp_was_armed ← lift (λ (s : System m). ok (is_file s.esp.armed))
    result ← attempt (withdraw backup)
    conclude_disarm conf local_was_armed esp_was_armed backup content result
