-- ===== src/Dsctl/Disarm/Undone.antt =====
-- `disarm` behind `arm`.
use deathstr0ke.Base.{
  ◌≡◌, sym, ap, ◌∙◌, subst, Bool, true, false, List, ok, inl, inr, arith, String,
}
use deathstr0ke.Text.{Text, contains_text}
use deathstr0ke.Files.{File, missing, text, read_to_string}
use deathstr0ke.Effects.{Fate, Run, done}
use deathstr0ke.Effects.Laws.{Ends}
use deathstr0ke.Dsctl.System.{Mkinitcpio, System, Esp}
use deathstr0ke.Dsctl.PamStack.{arm_marker}
use deathstr0ke.Dsctl.PamStack.Marked.{arm_pam_stack-marked}
use deathstr0ke.Dsctl.Machine.{Machine, Ready}
use deathstr0ke.Dsctl.Arm.{arm}
use deathstr0ke.Dsctl.Arm.Outcome.{Armed}
use deathstr0ke.Dsctl.Arm.Clearance.{arm_arms, with_registry}
use deathstr0ke.Dsctl.Disarm.{disarm}
use deathstr0ke.Dsctl.Disarm.Outcome.{Disarmed, disarm_disarms}

-- What holds behind the ends holds of a run that is known.
ended :
    {S A : Type 0} (Q : A → S → Type 0) (R : S → Type 0) {r : Run S A} {a : A} {s : S}
    {w : List Fate}
    → Ends Q R r
    → r ≡ done a s w
    → Q a s
ended Q R h e = subst (λ x. Ends Q R x) e h

text_inj : {a b : Text} (e : String) → read_to_string e (text a) ≡ ok b → a ≡ b
text_inj e h = cc

read_text : {f : File} {a b : Text} (e : String) → f ≡ text a → read_to_string e f ≡ ok b → a ≡ b
read_text {b = b} e h k = text_inj e (subst (λ x. read_to_string e x ≡ ok b) h k)

-- From an armed system whose backup is the PAM stack that was armed.
restored_auth :
    {m : Mkinitcpio} (ready : Ready) (content : Text) (s t u : System m)
    → Armed ready content s t
    → Disarmed t u
    → u.system_auth ≡ text content
restored_auth ready content s t u a d =
    let same : a.updated ≡ d.content =
      read_text "read system-auth" a.committed.auth d.content_read in
    let marked : contains_text arm_marker d.content ≡ true =
      subst (λ x. contains_text arm_marker x ≡ true) same (arm_pam_stack-marked content a.stack) in
    let (original, read, auth) = d.restored marked in
    auth ∙ ap (λ x. text x) (sym (read_text _ a.committed.others.0 read))

-- An unarmed system that was armed and then disarmed has its PAM stack back, to the letter, and
-- neither marker, whatever failed and was made up for on the way in either command.
pub disarm_undoes_arm :
    {m : Mkinitcpio} (host host' : Machine) (content : Text) (s t u : System m)
    (w v w' v' : List Fate)
    → s.system_auth ≡ text content
    → contains_text arm_marker content ≡ false
    → arm host s w ≡ done tt t v
    → disarm host' t w' ≡ done tt u v'
    → (u.system_auth ≡ s.system_auth) × (u.local_armed ≡ missing) × (u.esp.armed ≡ missing)
disarm_undoes_arm host host' content s t u w v w' v' auth fresh armed disarmed =
    let (ready, found, registry, cleared, read, marked) = ended _ _ (arm_arms host s w) armed in
    let d : Disarmed t u = ended _ _ (disarm_disarms host' t w') disarmed in
    let same : content ≡ found = read_text "read system-auth" auth read in
    (
      elim marked [
        | inl (already, unchanged) ↦
            absurd
              (both_ways (subst (λ x. contains_text arm_marker x ≡ false) same fresh) already.0)
        | inr (unarmed, a) ↦
            restored_auth ready found (with_registry s registry) t u a d
            ∙ ap (λ x. text x) (sym same)
            ∙ sym auth
      ],
      d.local,
      ap (λ (e : Esp). e.armed) d.esp,
    )
  where
    both_ways : {b : Bool} → b ≡ false → b ≡ true → ⊥
    both_ways h k = ground arith
