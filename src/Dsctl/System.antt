-- ===== src/Dsctl/System.antt =====
-- What dsctl/src/main.rs reads and changes of the system when it arms and disarms it.
pub mod Steps
use deathstr0ke.Base.{
  ℕ, Bool, true, false, not, List, [], ◌∷◌, ◌++◌, Option, none, some, Result, ok, err, String,
  if◌then◌else◌, ◌&&◌, is_ok,
}
use deathstr0ke.Text.{Text, codes}
use deathstr0ke.Text.Numbers.{decimal}
use deathstr0ke.Files.{File, missing, unreadable, text, read_to_string}
use deathstr0ke.Effects.{Prog, ◌>>=◌, ◌>>◌, pure, lift, act, act_half, query, attempt, when}
use deathstr0ke.Core.Policy.{Policy, config_text}
use deathstr0ke.Dsctl.Hooks.{with_deathstroke_hook, without_deathstroke_hook}

-- The files of the armed state on the ESP.
pub record Esp : Type 0 where
  pub duress_hash : File
  pub config : File
  pub counter : File
  pub daily_slot : File
  pub recovery_slot : File
  pub armed : File

-- The program `mkinitcpio`: the images that it builds, from the configuration, the marker of an armed
-- machine and the ESP, and one that a failed run leaves.
pub record Mkinitcpio : Type 1 where
  pub Image : Type 0
  pub build : File → File → Esp → Image
  pub broken : Image

pub record System (m : Mkinitcpio) : Type 0 where
  pub system_auth : File
  pub backup : File
  pub mkinitcpio_conf : File
  pub initramfs : m.Image
  pub local_armed : File
  pub known_slots : File
  pub esp : Esp

abbrev pub armed_text : Text
armed_text = codes "armed=1\n"

unfoldable pub slot_text : ℕ → Text
unfolding decimal
slot_text n = decimal n ++ b'\n' ∷ []

module _ {m : Mkinitcpio} where
  abbrev pub set_auth : Text → System m → System m
  set_auth t s = record s { system_auth = text t }

  abbrev pub set_backup : Text → System m → System m
  set_backup t s = record s { backup = text t }

  abbrev pub set_conf : Text → System m → System m
  set_conf t s = record s { mkinitcpio_conf = text t }

  abbrev pub set_local : File → System m → System m
  set_local f s = record s { local_armed = f }

  abbrev pub set_esp : (Esp → Esp) → System m → System m
  set_esp f s = record s { esp = f s.esp }

  abbrev pub rebuilt : System m → System m
  rebuilt s = record s { initramfs = m.build s.mkinitcpio_conf s.local_armed s.esp }

  abbrev pub half_built : System m → System m
  half_built s = record s { initramfs = m.broken }

  -- `run_checked("mkinitcpio", &["-P"])`
  unfoldable pub run_mkinitcpio : Prog (System m) (Unit {0})
  run_mkinitcpio = act_half "mkinitcpio -P failed" rebuilt half_built

  -- `sync_esp_state`
  unfoldable pub sync_esp_state : Text → Policy → ℕ → ℕ → Prog (System m) (Unit {0})
  sync_esp_state verifier policy daily recovery = do
    query "create ESP state" (λ s. ok tt)
    act "write duress.hash" (set_esp (λ e. record e { duress_hash = text verifier }))
    act "write config" (set_esp (λ e. record e { config = text (config_text policy) }))
    act "write counter" (set_esp (λ e. record e { counter = text (codes "0\n") }))
    act "write daily.slot" (set_esp (λ e. record e { daily_slot = text (slot_text daily) }))
    act "write recovery.slot"
        (set_esp (λ e. record e { recovery_slot = text (slot_text recovery) }))

  -- The end of the two functions on the HOOKS line: an unchanged file is not written.
  unfoldable pub write_conf : Text × Bool → Prog (System m) (Unit {0})
  write_conf updated = when updated.1 (do
    query "stat mkinitcpio.conf" (λ s. ok tt)
    act "write mkinitcpio.conf" (set_conf updated.0))

  unfoldable pub ensure_deathstroke_hook_before_encrypt : Prog (System m) (Unit {0})
  unfolding write_conf
  ensure_deathstroke_hook_before_encrypt = do
    original ← lift (λ (s : System m). read_to_string "read /etc/mkinitcpio.conf" s.mkinitcpio_conf)
    updated ← lift (λ (s : System m). with_deathstroke_hook original)
    write_conf updated

  unfoldable pub remove_deathstroke_hook : Prog (System m) (Unit {0})
  unfolding write_conf
  remove_deathstroke_hook = do
    original ← lift (λ (s : System m). read_to_string "read /etc/mkinitcpio.conf" s.mkinitcpio_conf)
    updated ← lift (λ (s : System m). without_deathstroke_hook original)
    write_conf updated

-- A step of a rollback: what it does, and what it leaves where it fails halfway.
pub record Step (S : Type 0) : Type 0 where
  pub name : String
  pub whole : S → S
  pub partly : S → S

abbrev pub whole_step : {S : Type 0} → String → (S → S) → Step S
whole_step e f = record { name = e; whole = f; partly = f }

-- Each step is tried, whatever became of the ones before it; the answer is whether all of them worked.
unfoldable pub try_all : {S : Type 0} → List (Step S) → Prog S Bool
try_all [] = pure true
try_all (step ∷ steps) = do
  result ← attempt (act_half step.name step.whole step.partly)
  others ← try_all steps
  pure (is_ok result && others)
