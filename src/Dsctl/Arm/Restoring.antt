-- ===== src/Dsctl/Arm/Restoring.antt =====
-- What the rollback of `arm` sets, and the snapshots that it sets it from.
use deathstr0ke.Base.{
  ◌≡◌, refl, sym, ap, ◌∙◌, subst, Bool, true, false, List, [], ◌∷◌, Result, ok, err, String,
}
use deathstr0ke.Base
use deathstr0ke.Text.{Text}
use deathstr0ke.Files.{File, missing, unreadable, text, read_to_string}
use deathstr0ke.Effects.{Fate}
use deathstr0ke.Effects.Laws.{Ends, to-Triple, from-Triple}
use deathstr0ke.Dsctl.System.{Mkinitcpio, System, Esp}
use deathstr0ke.Dsctl.System.Steps.{Any, whole_steps, try_all-Triple}
use deathstr0ke.Dsctl.Arm.{snapshot_file, snapshot_esp, rollback_steps, roll_back}

module _ {m : Mkinitcpio} where
  -- The unarmed system: PAM, mkinitcpio.conf and the ESP as they were, no local marker, and an
  -- initramfs that was built from them.
  pub record Restored (content conf : Text) (old : Esp) (s t : System m) : Type 0 where
    pub auth : t.system_auth ≡ text content
    pub conf_restored : t.mkinitcpio_conf ≡ text conf
    pub local : t.local_armed ≡ missing
    pub esp : t.esp ≡ old
    pub image : t.initramfs ≡ m.build (text conf) missing old
    pub others : (t.backup ≡ s.backup) × (t.known_slots ≡ s.known_slots)

  steps_restore :
      (content conf : Text) (old : Esp) (s : System m)
      → Restored content conf old s (whole_steps (rollback_steps content conf old) s)
  unfolding rollback_steps whole_steps
  steps_restore content conf old s = record {
    auth = refl;
    conf_restored = refl;
    local = refl;
    esp = refl;
    image = refl;
    others = (refl, refl);
  }

-- Where the rollback reports no error, the arguments stand again.
pub roll_back-Restored :
    {m : Mkinitcpio} (content conf : Text) (old : Esp) (s : System m) (w : List Fate)
    → Ends (λ b t. b ≡ true → Restored content conf old s t) Any (roll_back content conf old s w)
unfolding roll_back
roll_back-Restored {m} content conf old s w =
    (to-Triple
        (λ b t h e.
          subst (λ x. Restored content conf old s x) (sym (h tt e))
            (steps_restore content conf old s))
        (from-Triple (λ t h _. h)
          (try_all-Triple (rollback_steps content conf old) (Unit {0}) s))).run
      s w refl

-- A file that is snapshotted is its own snapshot.
snapshot_file-bind :
    (f : File) (k : File → Result Esp) {old : Esp}
    → (Base.◌>>=◌ (snapshot_file f) k) ≡ ok old
    → k f ≡ ok old
unfolding snapshot_file
snapshot_file-bind missing k h = h
snapshot_file-bind unreadable k h = cc
snapshot_file-bind (text t) k h = h

pub same_text : (f : File) (e : String) {t : Text} → read_to_string e f ≡ ok t → f ≡ text t
same_text missing e h = cc
same_text unreadable e h = cc
same_text (text u) e h = cc

pub snapshot_esp-same : (e : Esp) {old : Esp} → snapshot_esp e ≡ ok old → old ≡ e
unfolding snapshot_esp
snapshot_esp-same e {old} h = sym (
    same (
      snapshot_file-bind e.armed _ (
        snapshot_file-bind e.recovery_slot _ (
          snapshot_file-bind e.daily_slot _ (
            snapshot_file-bind e.counter _
              (snapshot_file-bind e.config _ (snapshot_file-bind e.duress_hash _ h)))))))
  where
    same : {a b : Esp} → ◌≡◌ {A = Result Esp} (ok a) (ok b) → a ≡ b
    same k = cc
