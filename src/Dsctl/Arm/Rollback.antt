-- ===== src/Dsctl/Arm/Rollback.antt =====
-- What a transaction of `arm` that was rolled back leaves.
use deathstr0ke.Base.{
  ◌≡◌, refl, sym, ap, ◌∙◌, subst, Bool, true, false, List, [], ◌∷◌, Result, ok, err, String,
}
use deathstr0ke.Base
use deathstr0ke.Text.{Text}
use deathstr0ke.Files.{File, missing, unreadable, text, read_to_string}
use deathstr0ke.Effects.{Fate, Run, done, failed, fail, pure}
use deathstr0ke.Effects.Errors.{
  Avoids, failed_message, failed_state, behind, lift-Avoids, lift-done, query-Avoids, query-done,
  act-Avoids, act-done, attempt-Avoids,
}
use deathstr0ke.Effects.Laws.{Ends}
use deathstr0ke.Dsctl.System.{Mkinitcpio, System, Esp, Step, try_all, set_backup}
use deathstr0ke.Dsctl.System.Steps.{Any}
use deathstr0ke.Dsctl.Arm.Restoring.{Restored, roll_back-Restored, same_text, snapshot_esp-same}
use deathstr0ke.Dsctl.Arm.{
  snapshot_file, snapshot_esp, rollback_steps, roll_back, rolled_back, settle, arm_transaction,
}
use deathstr0ke.Dsctl.Machine.{Ready}
use deathstr0ke.Dsctl.PamStack.{arm_pam_stack}

-- The system is unarmed as it was, with an initramfs that was built for that.
pub record Reverted {m : Mkinitcpio} (s t : System m) : Type 0 where
  pub auth : t.system_auth ≡ s.system_auth
  pub conf : t.mkinitcpio_conf ≡ s.mkinitcpio_conf
  pub local : t.local_armed ≡ missing
  pub esp : t.esp ≡ s.esp
  pub image : t.initramfs ≡ m.build s.mkinitcpio_conf missing s.esp

abbrev pub rolled : String
rolled = "arm transaction rolled back"

incomplete : "arm failed; rollback INCOMPLETE" ≡ rolled → ⊥
incomplete h = cc

not_conf : "snapshot mkinitcpio.conf" ≡ rolled → ⊥
not_conf h = cc

not_esp : "snapshot" ≡ rolled → ⊥
not_esp h = cc

not_stat : "stat system-auth" ≡ rolled → ⊥
not_stat h = cc

not_backup : "write PAM backup" ≡ rolled → ⊥
not_backup h = cc

read_to_string_error : (f : File) (e x : String) → (e ≡ x → ⊥) → read_to_string e f ≡ err x → ⊥
read_to_string_error missing e x h k = h cc
read_to_string_error unreadable e x h k = h cc
read_to_string_error (text t) e x h k = cc

snapshot_error :
    (f : File) (k : File → Result Esp)
    → ((g : File) → k g ≡ err rolled → ⊥)
    → (Base.◌>>=◌ (snapshot_file f) k) ≡ err rolled
    → ⊥
unfolding snapshot_file
snapshot_error missing k h e = h _ e
snapshot_error unreadable k h e = not_esp cc
snapshot_error (text t) k h e = h _ e

snapshot_esp_error : (e : Esp) → snapshot_esp e ≡ err rolled → ⊥
unfolding snapshot_esp
snapshot_esp_error e = snapshot_error e.duress_hash _ λ _. snapshot_error e.config _ λ _.
    snapshot_error e.counter _ λ _.
      snapshot_error e.daily_slot _
        λ _. snapshot_error e.recovery_slot _ λ _. snapshot_error e.armed _ λ _ k. cc

pure_ends :
    {S A : Type 0} (a : A) (s : S) (w : List Fate) {e : String} {t : S} {v : List Fate}
    → pure a s w ≡ failed e t v
    → ⊥
unfolding pure
pure_ends a s w h = cc

try_all-Avoids : {S : Type 0} (e : String) (steps : List (Step S)) → Avoids e (try_all steps)
unfolding try_all
try_all-Avoids e [] s t w v h = pure_ends true s w h
try_all-Avoids e (step ∷ steps) s t w v h =
    let (r, s1, w1, d1, h1) = behind e _ _ (attempt-Avoids e _) s t w v h in
    let (b, s2, w2, d2, h2) = behind e _ _ (try_all-Avoids e steps) s1 t w1 v h1 in
    pure_ends _ s2 w2 h2

at_done :
    {S A : Type 0} (Q : A → S → Type 0) (R : S → Type 0) {r : Run S A} {a : A} {s : S}
    {w : List Fate}
    → r ≡ done a s w
    → Ends Q R r
    → Q a s
at_done Q R e h = subst (λ x. Ends Q R x) e h

module _ {m : Mkinitcpio} where
  -- The arguments of the rollback, where they are what the system had.
  reverted :
      (content conf : Text) (old : Esp) (s u t : System m)
      → s.system_auth ≡ text content
      → s.mkinitcpio_conf ≡ text conf
      → old ≡ s.esp
      → Restored content conf old u t
      → Reverted s t
  reverted content conf old s u t a c o r = record {
    auth = r.auth ∙ sym a;
    conf = r.conf_restored ∙ sym c;
    local = r.local;
    esp = r.esp ∙ o;
    image =
        r.image
        ∙ ap (λ f. m.build f missing old) (sym c)
        ∙ ap (λ e. m.build s.mkinitcpio_conf missing e) o;
  }

  rolled_back-rolled :
      (b : Bool) (s t : System m) (w v : List Fate)
      → rolled_back b s w ≡ failed rolled t v
      → (b ≡ true) × (t ≡ s)
  unfolding rolled_back fail
  rolled_back-rolled true s t w v h = (refl, failed_state h)
  rolled_back-rolled false s t w v h = absurd (incomplete (failed_message h))

  settle-Restored :
      (content conf : Text) (old : Esp) (r : Result (Unit {0})) (s t : System m) (w v : List Fate)
      → settle content conf old r s w ≡ failed rolled t v
      → Restored content conf old s t
  unfolding settle
  settle-Restored content conf old (ok u) s t w v h = absurd (pure_ends tt s w h)
  settle-Restored content conf old (err e) s t w v h =
      let (b, u, x, d, l) = behind rolled _ _ roll_back-Avoids s t w v h in
      let (worked, same) = rolled_back-rolled b u t x v l in
      subst (λ y. Restored content conf old s y) (sym same)
        (at_done (λ b t. b ≡ true → Restored content conf old s t) Any d
          (roll_back-Restored content conf old s w) worked)
    where
      roll_back-Avoids : Avoids rolled (roll_back {m = m} content conf old)
      roll_back-Avoids = unfold roll_back in try_all-Avoids rolled (rollback_steps content conf old)

  transaction-Reverted :
      (ready : Ready) (content : Text) {updated : Text} (s t : System m) (w v : List Fate)
      → s.system_auth ≡ text content
      → arm_pam_stack content ≡ ok updated
      → arm_transaction ready content s w ≡ failed rolled t v
      → Reverted s t
  unfolding arm_transaction
  transaction-Reverted ready content {updated} s t w v a stack h0 =
      let (u1, s1, w1, d1, h1) = behind rolled _ _ (lift-Avoids _ _ λ z k. cc) s t w v h0 in
      let (u2, s2, w2, d2, h2) = behind rolled _ _ (query-Avoids _ _ tt not_stat) s1 t w1 v h1 in
      let (u3, s3, w3, d3, h3) = behind rolled _ _ (act-Avoids _ _ _ not_backup) s2 t w2 v h2 in
      let (conf, s4, w4, d4, h4) =
        behind rolled _ _
          (lift-Avoids _ _
            λ (z : System m) k. read_to_string_error z.mkinitcpio_conf _ _ not_conf k)
          s3 t w3 v h3 in
      let (old, s5, w5, d5, h5) =
        behind rolled _ _ (lift-Avoids _ _ λ (z : System m) k. snapshot_esp_error z.esp k) s4 t w4 v
          h4 in
      let (r, s6, w6, d6, h6) = behind rolled _ _ (attempt-Avoids _ _) s5 t w5 v h5 in
      let e1 : s1 ≡ s = (lift-done _ w d1).1 in
      let e2 : s2 ≡ s1 = query-done _ _ w1 d2 in
      let e3 : s3 ≡ set_backup content s2 = act-done _ _ w2 d3 in
      let e4 = lift-done _ w3 d4 in
      let e5 = lift-done _ w4 d5 in
      let p3 : s3 ≡ set_backup content s =
        e3 ∙ ap (λ (z : System m). set_backup content z) (e2 ∙ e1) in
      reverted content conf old s s6 t a
        (ap (λ (z : System m). z.mkinitcpio_conf) (sym p3) ∙ same_text s3.mkinitcpio_conf _ e4.0)
        (snapshot_esp-same s4.esp e5.0 ∙ ap (λ (z : System m). z.esp) (e4.1 ∙ p3))
        (settle-Restored content conf old r s6 t w6 v h6)

-- Where the transaction of `arm` fails and says that it was rolled back, PAM, mkinitcpio.conf and the
-- six files on the ESP are what they were before it, the local marker is gone, and the initramfs was
-- built again from these, whatever had failed and at whatever step, given that PAM was read as it stood
-- and is a stack that can be armed.
pub arm_transaction_reverts :
    {m : Mkinitcpio} (ready : Ready) (content updated : Text) (s t : System m) (w v : List Fate)
    → s.system_auth ≡ text content
    → arm_pam_stack content ≡ ok updated
    → arm_transaction ready content s w ≡ failed "arm transaction rolled back" t v
    → Reverted s t
arm_transaction_reverts ready content updated s t w v a stack h =
    transaction-Reverted ready content {updated = updated} s t w v a stack h
