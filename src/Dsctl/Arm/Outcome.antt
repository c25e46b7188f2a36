-- ===== src/Dsctl/Arm/Outcome.antt =====
-- What `arm` has made sure of, and what it leaves.
use deathstr0ke.Base.{◌≡◌, ◌⊎◌, inl, inr, Bool, true, false, Result, ok, err}
use deathstr0ke.Text.{Text, contains_text}
use deathstr0ke.Files.{is_file}
use deathstr0ke.Effects.Laws.{
  Triple, Caught, >>=-Triple, pure-Triple, fail-Triple, attempt-Triple, to-Triple, loosen-Triple,
  fact-Triple,
}
use deathstr0ke.Effects.Checks.{check-Triple}
use deathstr0ke.Dsctl.System.{Mkinitcpio, System, Esp, set_backup}
use deathstr0ke.Dsctl.System.Steps.{Any, act-At, query-At}
use deathstr0ke.Dsctl.PamStack.{arm_marker, arm_pam_stack}
use deathstr0ke.Dsctl.Machine.{Ready}
use deathstr0ke.Dsctl.Arm.{rolled_back, settle, arm_transaction, by_markers}
use deathstr0ke.Dsctl.Arm.Commit.{Committed, commit-Triple}

module _ {m : Mkinitcpio} where
  -- The transaction, where it returned: PAM is the armed form of what it was, and that is backed up.
  pub record Armed (ready : Ready) (content : Text) (s t : System m) : Type 0 where
    pub updated : Text
    pub stack : arm_pam_stack content ≡ ok updated
    pub committed : Committed ready updated (set_backup content s) t

  rolled_back-Triple :
      {Q : System m → Type 0} (b : Bool)
      → Triple (λ _. Unit {0}) (rolled_back {m = m} b) (λ _ t. Q t) Any
  unfolding rolled_back
  rolled_back-Triple true = fail-Triple _ (λ s h. tt)
  rolled_back-Triple false = fail-Triple _ (λ s h. tt)

  settle-Triple :
      (content conf : Text) (old : Esp) (r : Result (Unit {0})) (Q E : System m → Type 0)
      → Triple (Caught (λ _ t. Q t) E r) (settle content conf old r) (λ _ t. Q t) Any
  unfolding settle
  settle-Triple content conf old (ok u) Q E = pure-Triple tt (λ s h. h)
  settle-Triple content conf old (err e) Q E =
      >>=-Triple (λ _ _. Unit {0}) (fact-Triple _ tt) (λ b. rolled_back-Triple b)

  arm_transaction-Triple :
      (ready : Ready) (content : Text) (s₀ : System m)
      → Triple (λ s. s ≡ s₀) (arm_transaction ready content) (λ _ t. Armed ready content s₀ t) Any
  unfolding arm_transaction
  arm_transaction-Triple ready content s₀ = check-Triple _ tt λ updated stack. query-At _ _ tt λ _.
      act-At _ _ _ tt tt tt (
        check-Triple _ tt λ conf _. check-Triple _ tt λ old _.
          >>=-Triple (Caught (λ _ t. Armed ready content s₀ t) Any)
            (attempt-Triple (
              to-Triple (λ _ t h. record { updated = updated; stack = stack; committed = h })
                (loosen-Triple (λ s h. tt) (commit-Triple ready updated (set_backup content s₀)))))
            λ r. settle-Triple content conf old r _ _)

  -- What stood when `arm` found that there was nothing to do.
  abbrev pub AlreadyArmed : Text → System m → Type 0
  AlreadyArmed content s =
      (contains_text arm_marker content ≡ true)
      × (is_file s.local_armed ≡ true)
      × (is_file s.esp.armed ≡ true)

  abbrev pub Unarmed : Text → System m → Type 0
  Unarmed content s =
      (contains_text arm_marker content ≡ false)
      × (is_file s.local_armed ≡ false)
      × (is_file s.esp.armed ≡ false)

  abbrev pub Marked : Ready → Text → System m → System m → Type 0
  Marked ready content s t =
      (AlreadyArmed content s × (t ≡ s)) ⊎ (Unarmed content s × Armed ready content s t)

  pub by_markers-Triple :
      (ready : Ready) (content : Text) (s₀ : System m) (pam l e : Bool)
      → contains_text arm_marker content ≡ pam
      → is_file s₀.local_armed ≡ l
      → is_file s₀.esp.armed ≡ e
      → Triple
          (λ s. s ≡ s₀)
          (by_markers ready content pam l e)
          (λ _ t. Marked ready content s₀ t)
          Any
  unfolding by_markers
  by_markers-Triple ready content s₀ true true true p l e =
      pure-Triple tt (λ s h. inl ((p, l, e), h))
  by_markers-Triple ready content s₀ true true false p l e = fail-Triple _ (λ s h. tt)
  by_markers-Triple ready content s₀ true false x p l e = fail-Triple _ (λ s h. tt)
  by_markers-Triple ready content s₀ false true x p l e = fail-Triple _ (λ s h. tt)
  by_markers-Triple ready content s₀ false false true p l e = fail-Triple _ (λ s h. tt)
  by_markers-Triple ready content s₀ false false false p l e =
      to-Triple (λ _ t h. inr ((p, l, e), h)) (arm_transaction-Triple ready content s₀)
