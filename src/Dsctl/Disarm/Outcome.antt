-- ===== src/Dsctl/Disarm/Outcome.antt =====
-- What `disarm` leaves.
use deathstr0ke.Base.{
  ◌≡◌, refl, sym, ap, subst, arith, Bool, true, false, List, Option, none, some, Result, ok, err,
}
use deathstr0ke.Text.{Text, contains_text}
use deathstr0ke.Files.{missing, text, read_to_string}
use deathstr0ke.Effects.{Fate}
use deathstr0ke.Effects.Laws.{
  Triple, Ends, Caught, >>=-Triple, pure-Triple, fail-Triple, attempt-Triple, act_half-Triple,
  to-Triple, from-Triple, given-Triple, fact-Triple,
}
use deathstr0ke.Effects.Checks.{check-Triple}
use deathstr0ke.Dsctl.Hooks.{without_deathstroke_hook}
use deathstr0ke.Dsctl.System.{
  Mkinitcpio, System, set_auth, set_local, set_esp, rebuilt, run_mkinitcpio,
  remove_deathstroke_hook,
}
use deathstr0ke.Dsctl.System.Steps.{Any, act-At, query-At}
use deathstr0ke.Dsctl.PamStack.{arm_marker}
use deathstr0ke.Dsctl.Machine.{Machine}
use deathstr0ke.Dsctl.Arm.Commit.{conf_after, write_conf-Triple}
use deathstr0ke.Dsctl.Disarm.{
  read_backup, restore_auth, withdraw, drop_backup, rearmed, conclude_disarm, disarm,
}

module _ {m : Mkinitcpio} where
  abbrev auth_after : Option Text → System m → System m
  auth_after none s = s
  auth_after (some original) s = set_auth original s

  -- What was read of mkinitcpio.conf, and what it became.
  record Unhooked (s : System m) : Type 0 where
    pub original : Text
    pub unhooked : Text × Bool
    pub read : read_to_string "read /etc/mkinitcpio.conf" s.mkinitcpio_conf ≡ ok original
    pub made : without_deathstroke_hook original ≡ ok unhooked

  abbrev freed : (s : System m) → Unhooked s → System m
  freed s h = record s { mkinitcpio_conf = conf_after h.unhooked.1 h.unhooked.0 s.mkinitcpio_conf }

  abbrev unmarked : Option Text → System m → System m
  unmarked backup s =
      set_esp (λ e. record e { armed = missing }) (set_local missing (auth_after backup s))

  restore_auth-Triple :
      (backup : Option Text) (s₀ : System m)
      → Triple (λ s. s ≡ s₀) (restore_auth backup) (λ _ t. t ≡ auth_after backup s₀) Any
  unfolding restore_auth
  restore_auth-Triple none s₀ = pure-Triple tt (λ s h. h)
  restore_auth-Triple (some o) s₀ =
      act_half-Triple _ _ _ (λ s h. ap (set_auth o) h) (λ s h. tt) (λ s h. tt)

  remove-Triple :
      (s₀ : System m)
      → Triple
          (λ s. s ≡ s₀)
          remove_deathstroke_hook
          (λ _ t. (h : Unhooked s₀) × (t ≡ freed s₀ h))
          Any
  unfolding remove_deathstroke_hook
  remove-Triple s₀ = check-Triple _ tt λ original read. check-Triple _ tt λ unhooked made.
      to-Triple
        (λ _ t e.
          (record { original = original; unhooked = unhooked; read = read; made = made }, e))
        (write_conf-Triple unhooked s₀ tt tt)

  Withdrawn : Option Text → System m → System m → Type 0
  Withdrawn backup s t =
      (h : Unhooked (unmarked backup s)) × (t ≡ rebuilt (freed (unmarked backup s) h))

  withdraw-Triple :
      (backup : Option Text) (s₀ : System m)
      → Triple (λ s. s ≡ s₀) (withdraw backup) (λ _ t. Withdrawn backup s₀ t) Any
  unfolding withdraw run_mkinitcpio Withdrawn
  withdraw-Triple backup s₀ =
      >>=-Triple (λ _ t. t ≡ auth_after backup s₀) (restore_auth-Triple backup s₀)
        λ _. act-At _ _ _ tt tt tt (
          act-At _ _ _ tt tt tt (
            >>=-Triple
              (λ _ t. (h : Unhooked (unmarked backup s₀)) × (t ≡ freed (unmarked backup s₀) h))
              (remove-Triple (unmarked backup s₀))
              λ _. act_half-Triple _ _ _ (λ s h. (h.0, ap rebuilt h.1)) (λ s h. tt) (λ s h. tt)))

  -- A disarmed system: PAM is the backup if it was armed, and as it was if not; the markers are gone;
  -- the initramfs was built from a configuration that `without_deathstroke_hook` made.
  pub record Disarmed (s t : System m) : Type 0 where
    pub content : Text
    pub content_read : read_to_string "read system-auth" s.system_auth ≡ ok content
    pub restored :
        contains_text arm_marker content ≡ true
        → (original : Text) × (read_to_string "PAM backup missing; refusing a partial disarm"
              s.backup
            ≡ ok original)
          × (t.system_auth ≡ text original)
    pub kept : contains_text arm_marker content ≡ false → t.system_auth ≡ s.system_auth
    pub local : t.local_armed ≡ missing
    pub esp : t.esp ≡ record s.esp { armed = missing }
    pub conf_original : Text
    pub conf_new : Text × Bool
    pub conf_read : read_to_string "read /etc/mkinitcpio.conf" s.mkinitcpio_conf ≡ ok conf_original
    pub conf_unhooked : without_deathstroke_hook conf_original ≡ ok conf_new
    pub conf : t.mkinitcpio_conf ≡ conf_after conf_new.1 conf_new.0 s.mkinitcpio_conf
    pub image : t.initramfs ≡ m.build t.mkinitcpio_conf missing (record s.esp { armed = missing })

  abbrev Backed : System m → Bool → Option Text → Type 0
  Backed s true (some original) =
      read_to_string "PAM backup missing; refusing a partial disarm" s.backup ≡ ok original
  Backed s false none = Unit {0}
  Backed s b backup = ⊥

  abbrev dropped : Option Text → System m → System m
  dropped none s = s
  dropped (some original) s = record s { backup = missing }

  behind_all :
      (s : System m) (content : Text) (b : Bool) (backup : Option Text)
      → read_to_string "read system-auth" s.system_auth ≡ ok content
      → contains_text arm_marker content ≡ b
      → Backed s b backup
      → (h : Unhooked (unmarked backup s))
      → Disarmed s (dropped backup (rebuilt (freed (unmarked backup s) h)))
  behind_all s content true (some o) read c k h = record {
    content = content;
    content_read = read;
    restored = λ _. (o, k, refl);
    kept = λ e. absurd (ground arith);
    local = refl;
    esp = refl;
    conf_original = h.original;
    conf_new = h.unhooked;
    conf_read = h.read;
    conf_unhooked = h.made;
    conf = refl;
    image = refl;
  }
  behind_all s content false none read c k h = record {
    content = content;
    content_read = read;
    restored = λ e. absurd (ground arith);
    kept = λ _. refl;
    local = refl;
    esp = refl;
    conf_original = h.original;
    conf_new = h.unhooked;
    conf_read = h.read;
    conf_unhooked = h.made;
    conf = refl;
    image = refl;
  }
  behind_all s content true none read c k h = absurd k
  behind_all s content false (some o) read c k h = absurd k

  read_backup-Triple :
      (b : Bool) (s₀ : System m)
      → Triple (λ s. s ≡ s₀) (read_backup b) (λ backup t. Backed s₀ b backup × (t ≡ s₀)) Any
  unfolding read_backup
  read_backup-Triple false s₀ = pure-Triple none (λ s h. (tt, h))
  read_backup-Triple true s₀ =
      check-Triple _ tt λ original read. pure-Triple (some original) (λ s h. (read, h))

  rearmed-Triple :
      {Q : System m → Type 0} (b : Bool)
      → Triple (λ _. Unit {0}) (rearmed {m = m} b) (λ _ t. Q t) Any
  unfolding rearmed
  rearmed-Triple true = fail-Triple _ (λ s h. tt)
  rearmed-Triple false = fail-Triple _ (λ s h. tt)

  conclude_disarm-Triple :
      (conf : Text) (l e : Bool) (backup : Option Text) (content : Text) (r : Result (Unit {0}))
      (s₀ : System m)
      → ((h : Unhooked (unmarked backup s₀))
          → Disarmed s₀ (dropped backup (rebuilt (freed (unmarked backup s₀) h))))
      → Triple
          (Caught (λ _ t. Withdrawn backup s₀ t) Any r)
          (conclude_disarm conf l e backup content r)
          (λ _ t. Disarmed s₀ t)
          Any
  unfolding conclude_disarm drop_backup Withdrawn
  conclude_disarm-Triple conf l e none content (ok u) s₀ k =
      pure-Triple tt (λ s h. subst (λ x. Disarmed s₀ x) (sym h.1) (k h.0))
  conclude_disarm-Triple conf l e (some o) content (ok u) s₀ k =
      act_half-Triple _ _ _ (λ s h. subst (λ x. Disarmed s₀ (dropped (some o) x)) (sym h.1) (k h.0))
        (λ s h. tt) (λ s h. tt)
  conclude_disarm-Triple conf l e backup content (err x) s₀ k =
      >>=-Triple (λ _ _. Unit {0}) (fact-Triple _ tt) (λ b. rearmed-Triple b)

  disarm-Triple :
      (host : Machine) (s₀ : System m)
      → Triple (λ s. s ≡ s₀) (disarm host) (λ _ t. Disarmed s₀ t) Any
  unfolding disarm
  disarm-Triple host s₀ = check-Triple _ tt λ _ _. check-Triple _ tt λ content read.
      >>=-Triple (λ backup t. Backed s₀ (contains_text arm_marker content) backup × (t ≡ s₀))
        (read_backup-Triple _ s₀)
        λ backup.
          given-Triple (λ s h. h.0)
            λ backed.
              from-Triple (λ s h. h.1)
                (query-At _ _ tt λ _. check-Triple _ tt λ conf _. query-At _ _ tt λ _.
                  check-Triple _ tt λ l _. check-Triple _ tt λ e _.
                    >>=-Triple (Caught (λ _ t. Withdrawn backup s₀ t) Any)
                      (attempt-Triple (withdraw-Triple backup s₀))
                      λ r.
                        conclude_disarm-Triple conf l e backup content r s₀
                          (behind_all s₀ content _ backup read refl backed))

-- Where `disarm` returns, the armed PAM stack is the backup again, or an unarmed one is as it was; both
-- markers are gone; and the initramfs was built, behind all that, from a mkinitcpio.conf without the
-- hook.
pub disarm_disarms :
    {m : Mkinitcpio} (host : Machine) (s : System m) (w : List Fate)
    → Ends (λ _ t. Disarmed s t) Any (disarm host s w)
disarm_disarms host s w = (disarm-Triple host s).run s w refl
