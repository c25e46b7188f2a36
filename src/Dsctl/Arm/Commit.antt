-- ===== src/Dsctl/Arm/Commit.antt =====
-- The order in which the closure of `arm` commits.
use deathstr0ke.Base.{◌≡◌, refl, sym, ap, subst, ◌⊎◌, inl, inr, Bool, true, false, List, ok}
use deathstr0ke.Text.{Text, codes}
use deathstr0ke.Files.{File, text, read_to_string}
use deathstr0ke.Effects.{Fate}
use deathstr0ke.Effects.Laws.{
  Triple, Ends, >>=-Triple, act_half-Triple, when-Triple, to-Triple, loosen-Triple,
}
use deathstr0ke.Effects.Checks.{check-Triple}
use deathstr0ke.Core.Policy.{config_text}
use deathstr0ke.Dsctl.Hooks.{with_deathstroke_hook}
use deathstr0ke.Dsctl.Hooks.Placement.{InPlace, with_deathstroke_hook-InPlace}
use deathstr0ke.Dsctl.System.{
  Mkinitcpio, System, Esp, armed_text, slot_text, set_auth, set_conf, set_local, set_esp, rebuilt,
  run_mkinitcpio, sync_esp_state, write_conf, ensure_deathstroke_hook_before_encrypt,
}
use deathstr0ke.Dsctl.System.Steps.{act-At, query-At, some-Triple}
use deathstr0ke.Dsctl.Machine.{Ready}
use deathstr0ke.Dsctl.Arm.{commit}

-- The state on the ESP of an armed machine.
abbrev pub armed_esp : Ready → File → Esp
armed_esp ready armed = record {
  duress_hash = text ready.verifier;
  config = text (config_text ready.policy);
  counter = text (codes "0\n");
  daily_slot = text (slot_text ready.daily);
  recovery_slot = text (slot_text ready.recovery);
  armed = armed;
}

abbrev pub conf_after : Bool → Text → File → File
conf_after true t f = text t
conf_after false t f = f

module _ {m : Mkinitcpio} where
  -- What stands when everything has been committed: the initramfs was built from the configuration,
  -- the local marker and the ESP, before the marker on the ESP was set.
  pub record Committed (ready : Ready) (updated : Text) (s t : System m) : Type 0 where
    pub original : Text
    pub hooked : Text × Bool
    pub conf_read : read_to_string "read /etc/mkinitcpio.conf" s.mkinitcpio_conf ≡ ok original
    pub conf_hooked : with_deathstroke_hook original ≡ ok hooked
    pub in_place : InPlace original hooked
    pub conf : t.mkinitcpio_conf ≡ conf_after hooked.1 hooked.0 s.mkinitcpio_conf
    pub auth : t.system_auth ≡ text updated
    pub local : t.local_armed ≡ text armed_text
    pub esp : t.esp ≡ armed_esp ready (text armed_text)
    pub image :
        t.initramfs ≡ m.build t.mkinitcpio_conf (text armed_text) (armed_esp ready s.esp.armed)
    pub others : (t.backup ≡ s.backup) × (t.known_slots ≡ s.known_slots)

  abbrev SameAuth : System m → System m → Type 0
  SameAuth s t = t.system_auth ≡ s.system_auth

  abbrev synced : Ready → System m → System m
  synced ready s = record s { esp = armed_esp ready s.esp.armed }

  sync_esp_state-Triple :
      (ready : Ready) (s₀ : System m)
      → Triple
          (λ s. s ≡ s₀)
          (sync_esp_state ready.verifier ready.policy ready.daily ready.recovery)
          (λ _ t. t ≡ synced ready s₀)
          (SameAuth s₀)
  unfolding sync_esp_state
  sync_esp_state-Triple ready s₀ = query-At _ _ refl λ _. act-At _ _ _ refl refl refl (
      act-At _ _ _ refl refl refl (
        act-At _ _ _ refl refl refl (
          act-At _ _ _ refl refl refl (
            act_half-Triple _ _ _
              (λ s h.
                ap (set_esp (λ e. record e { recovery_slot = text (slot_text ready.recovery) })) h)
              (λ s h. ap (λ (t : System m). t.system_auth) h)
              (λ s h. ap (λ (t : System m). t.system_auth) h)))))

  pub write_conf-Triple :
      (updated : Text × Bool) (s₀ : System m) {R : System m → Type 0}
      → R s₀
      → R (set_conf updated.0 s₀)
      → Triple
          (λ s. s ≡ s₀)
          (write_conf updated)
          (λ _ t.
            t ≡ record s₀ { mkinitcpio_conf = conf_after updated.1 updated.0 s₀.mkinitcpio_conf })
          R
  unfolding write_conf
  write_conf-Triple (u, true) s₀ {R = R} stay changed =
      when-Triple true
        (λ _. query-At _ _ stay λ _.
          act_half-Triple _ _ _ (λ s h. ap (set_conf u) h) (λ s h. subst R (sym h) stay)
            (λ s h. subst R (sym (ap (set_conf u) h)) changed))
        (λ e. cc)
  write_conf-Triple (u, false) s₀ stay changed = when-Triple false (λ e. cc) (λ _ s h. h)

  -- What was read of mkinitcpio.conf, and what it became.
  record Hooked (s : System m) : Type 0 where
    pub original : Text
    pub hooked : Text × Bool
    pub read : read_to_string "read /etc/mkinitcpio.conf" s.mkinitcpio_conf ≡ ok original
    pub made : with_deathstroke_hook original ≡ ok hooked

  abbrev placed : (s : System m) → Hooked s → System m
  placed s h = record s { mkinitcpio_conf = conf_after h.hooked.1 h.hooked.0 s.mkinitcpio_conf }

  ensure-Triple :
      (s₀ : System m)
      → Triple
          (λ s. s ≡ s₀)
          ensure_deathstroke_hook_before_encrypt
          (λ _ t. (h : Hooked s₀) × (t ≡ placed s₀ h))
          (SameAuth s₀)
  unfolding ensure_deathstroke_hook_before_encrypt
  ensure-Triple s₀ = check-Triple _ refl λ original read. check-Triple _ refl λ hooked made.
      to-Triple
        (λ _ t e. (record { original = original; hooked = hooked; read = read; made = made }, e))
        (write_conf-Triple hooked s₀ refl refl)

  module _ (ready : Ready) (updated : Text) (s₀ : System m) where
    abbrev before_image : System m
    before_image = set_local (text armed_text) (synced ready s₀)

    abbrev before_auth : Hooked before_image → System m
    before_auth h =
        set_esp (λ e. record e { armed = text armed_text }) (rebuilt (placed before_image h))

    whole :
        (h : Hooked before_image) → Committed ready updated s₀ (set_auth updated (before_auth h))
    whole h = record {
      original = h.original;
      hooked = h.hooked;
      conf_read = h.read;
      conf_hooked = h.made;
      in_place = with_deathstroke_hook-InPlace h.original h.made;
      conf = refl;
      auth = refl;
      local = refl;
      esp = refl;
      image = refl;
      others = (refl, refl);
    }

    -- At the end of the closure, at an error and at a power cut: PAM is as it was, or all is committed.
    pub commit-Triple :
        Triple
          (λ s. s ≡ s₀)
          (commit ready updated)
          (λ _ t. Committed ready updated s₀ t)
          (λ t. (t.system_auth ≡ s₀.system_auth) ⊎ Committed ready updated s₀ t)
    unfolding commit run_mkinitcpio
    commit-Triple =
        >>=-Triple (λ _ t. t ≡ synced ready s₀)
          (loosen-Triple (λ s h. inl h) (sync_esp_state-Triple ready s₀))
          λ _. act-At _ _ _ (inl refl) (inl refl) (inl refl) (
            >>=-Triple (λ _ t. (h : Hooked before_image) × (t ≡ placed before_image h))
              (loosen-Triple (λ s h. inl h) (ensure-Triple before_image))
              λ _. some-Triple λ h. act-At _ _ _ (inl refl) (inl refl) (inl refl) (
                act-At _ _ _ (inl refl) (inl refl) (inl refl) (
                  act_half-Triple _ _ _
                    (λ s e.
                      subst (λ x. Committed ready updated s₀ (set_auth updated x)) (sym e)
                        (whole h))
                    (λ s e. inl (ap (λ (t : System m). t.system_auth) e))
                    (λ s e. inr (
                      subst (λ x. Committed ready updated s₀ (set_auth updated x)) (sym e)
                        (whole h))))))

-- The closure of `arm` writes PAM last: wherever it ends, by an error or by a power cut too, the PAM
-- stack is the one it started from, unless all else is in place. Where it returns, all is, with PAM.
-- In place are: the records and the marker on the ESP; the local marker; a mkinitcpio.conf with a HOOKS
-- line, each such line with the hook's name in it, which was there or was put in front of the text
-- encrypt or sd-encrypt; and an initramfs that was built from this mkinitcpio.conf, the local marker and
-- the records on the ESP, with the marker on the ESP still as it was at the start.
pub commit_orders :
    {m : Mkinitcpio} (ready : Ready) (updated : Text) (s : System m) (w : List Fate)
    → Ends
        (λ _ t. Committed ready updated s t)
        (λ t. (t.system_auth ≡ s.system_auth) ⊎ Committed ready updated s t)
        (commit ready updated s w)
commit_orders ready updated s w = (commit-Triple ready updated s).run s w refl
