-- ===== src/Dsctl/Recovery/Recorded.antt =====
-- What `enroll_recovery` records.
use deathstr0ke.Base.{
  ℕ, Option, none, some, ok, expect_some, String, ◌≡◌, ◌≢◌, refl, sym, ap, ◌∙◌, ◌⊎◌, inl, inr, Bool,
  List, [], ◌∷◌, ◌++◌,
}
use deathstr0ke.Text.{Text, codes}
use deathstr0ke.Files.{text}
use deathstr0ke.Effects.{Fate}
use deathstr0ke.Effects.Laws.{
  Triple, Ends, >>=-Triple, to-Triple, from-Triple, loosen-Triple, given-Triple, act_half-Triple,
}
use deathstr0ke.Effects.Checks.{check-Triple}
use deathstr0ke.Luks.{insert}
use deathstr0ke.Erase.Arguments.{flag}
use deathstr0ke.Dsctl.System.{slot_text}
use deathstr0ke.Dsctl.System.Steps.{Any, act-At, query-At}
use deathstr0ke.Dsctl.Registry.{known_text, difference}
use deathstr0ke.Dsctl.Machine.{Machine}
use deathstr0ke.Dsctl.Recovery.{
  Keyring, Records, slots_of, record_slots, add_recovery, enroll_recovery,
}
use deathstr0ke.Dsctl.Recovery.Matching.{
  opened, only_is, differ, confirmed, list_keyslots-Triple, matching_keyslots-Triple,
}

-- That the option is on the command line, with this value.
abbrev pub Given : List Text → String → Text → Type 0
Given args name value = flag args (codes name) ≡ some value

there : (o : Option Text) (e : String) {t : Text} → expect_some e o ≡ ok t → o ≡ some t
there none e h = cc
there (some t) e h = cc

module _ {k : Keyring} where
  abbrev enlarged : Text → Text → Records k → k.Device
  enlarged existing newkey s = k.luks_add_key existing newkey s.device

  -- What the device has shown before anything is recorded: the existing key opens one slot only, the
  -- new key was added in one slot, and opens no other.
  pub record Verified (existing newkey : Text) (s : Records k) : Type 0 where
    pub daily : ℕ
    pub recovery : ℕ
    pub daily_only : opened k s.device existing (slots_of k s.device) ≡ daily ∷ []
    pub added :
        difference (slots_of k (enlarged existing newkey s)) (slots_of k s.device) ≡ recovery ∷ []
    pub recovery_only :
        opened k (enlarged existing newkey s) newkey (slots_of k (enlarged existing newkey s))
        ≡ recovery ∷ []
    pub distinct : daily ≢ recovery

  -- The records that are left.
  abbrev pub recorded :
      (device existing newkey : Text) (s : Records k) → Verified existing newkey s → Records k
  recorded device existing newkey s v = record {
    device = enlarged existing newkey s;
    recovery_device = text (device ++ b'\n' ∷ []);
    target_device = text (device ++ b'\n' ∷ []);
    daily_slot = text (slot_text v.daily);
    recovery_slot = text (slot_text v.recovery);
    known_slots = text (known_text (insert v.recovery (insert v.daily [])));
  }

  abbrev pub Unrecorded : Records k → Records k → Type 0
  Unrecorded s t = (d : k.Device) × (t ≡ record s { device = d })

  record_slots-Triple :
      (device : Text) (daily recovery : ℕ) (s₀ : Records k)
      → Triple
          (λ s. s ≡ s₀)
          (record_slots device daily recovery)
          (λ _ t. t ≡ record {
            device = s₀.device;
            recovery_device = text (device ++ b'\n' ∷ []);
            target_device = text (device ++ b'\n' ∷ []);
            daily_slot = text (slot_text daily);
            recovery_slot = text (slot_text recovery);
            known_slots = text (known_text (insert recovery (insert daily [])));
          })
          Any
  unfolding record_slots
  record_slots-Triple device daily recovery s₀ = query-At _ _ tt λ _. act-At _ _ _ tt tt tt (
      act-At _ _ _ tt tt tt (
        act-At _ _ _ tt tt tt (
          act-At _ _ _ tt tt tt (
            query-At _ _ tt λ _.
              act_half-Triple _ _ _
                (λ s h.
                  ap
                    (λ (t : Records k). record t {
                      known_slots = text (known_text (insert recovery (insert daily [])));
                    })
                    h)
                (λ s h. tt) (λ s h. tt)))))

  add_recovery-Triple :
      (is_file : Text → Bool) (device existing newkey : Text) (s₀ : Records k)
      → Triple
          (λ s. s ≡ s₀)
          (add_recovery is_file device existing newkey)
          (λ _ t. (v : Verified existing newkey s₀) × (t ≡ recorded device existing newkey s₀ v))
          (λ t. Unrecorded s₀ t ⊎ Verified existing newkey s₀)
  unfolding add_recovery
  add_recovery-Triple is_file device existing newkey s₀ =
      let stay : Unrecorded s₀ s₀ ⊎ Verified existing newkey s₀ = inl (s₀.device, refl) in
      let s₁ : Records k = record s₀ { device = enlarged existing newkey s₀ } in
      let grown : Unrecorded s₀ s₁ ⊎ Verified existing newkey s₀ =
        inl (enlarged existing newkey s₀, refl) in
      >>=-Triple (λ r s. (s ≡ s₀) × (r ≡ opened k s₀.device existing (slots_of k s₀.device)))
        (matching_keyslots-Triple is_file existing s₀ stay)
        λ matches.
          given-Triple (λ s h. h.1)
            λ matched.
              from-Triple (λ s h. h.0)
                (check-Triple _ stay λ daily is_only.
                  >>=-Triple (λ r s. (s ≡ s₀) × (r ≡ slots_of k s₀.device))
                    (list_keyslots-Triple s₀ stay)
                    λ before.
                      given-Triple (λ s h. h.1)
                        λ before_is.
                          from-Triple (λ s h. h.0)
                            (act-At _ _ _ stay grown grown (
                              >>=-Triple (λ r s. (s ≡ s₁) × (r ≡ slots_of k s₁.device))
                                (list_keyslots-Triple s₁ grown)
                                λ after.
                                  given-Triple (λ s h. h.1)
                                    λ after_is.
                                      from-Triple (λ s h. h.0)
                                        (check-Triple _ grown λ recovery one_added.
                                          >>=-Triple
                                            (λ r s.
                                              (s ≡ s₁)
                                              × (r
                                                  ≡ opened k s₁.device newkey
                                                      (slots_of k s₁.device)))
                                            (matching_keyslots-Triple is_file newkey s₁ grown)
                                            λ found.
                                              given-Triple (λ s h. h.1)
                                                λ found_is.
                                                  from-Triple (λ s h. h.0)
                                                    (check-Triple _ grown λ _ same.
                                                      let added : difference (slots_of k s₁.device)
                                                            (slots_of k s₀.device)
                                                          ≡ recovery ∷ [] =
                                                        ap
                                                          (λ x. difference x (slots_of k s₀.device))
                                                          (sym after_is)
                                                        ∙ ap (λ x. difference after x)
                                                            (sym before_is)
                                                        ∙ only_is _ (difference after before)
                                                            one_added in
                                                      let daily_only : opened k s₀.device existing
                                                            (slots_of k s₀.device)
                                                          ≡ daily ∷ [] =
                                                        sym matched ∙ only_is _ matches is_only in
                                                      let v : Verified existing newkey s₀ = record {
                                                        daily = daily;
                                                        recovery = recovery;
                                                        daily_only = daily_only;
                                                        added = added;
                                                        recovery_only =
                                                            sym found_is
                                                            ∙ confirmed found recovery _ same;
                                                        distinct =
                                                            differ k s₀.device existing
                                                            (slots_of k s₀.device)
                                                            (slots_of k s₁.device) daily_only added;
                                                      } in
                                                      to-Triple (λ _ t e. (v, e))
                                                        (loosen-Triple (λ s h. inr v)
                                                          (record_slots-Triple device daily recovery
                                                            s₁)))))))

  -- The key files of the command line, and what the device has shown of them.
  abbrev pub VerifiedKeys : List Text → Records k → Type 0
  VerifiedKeys args s =
      (existing : Text) × (newkey : Text) × Given args "--existing-keyfile" existing
      × Given args "--new-keyfile" newkey
      × Verified existing newkey s

  -- The device and the key files of the command line, what the device has shown of them, and the
  -- records that say so.
  abbrev pub Enrolled : List Text → Records k → Records k → Type 0
  Enrolled args s t =
      (device : Text) × (existing : Text) × (newkey : Text) × Given args "--device" device
      × Given args "--existing-keyfile" existing
      × Given args "--new-keyfile" newkey
      × ((v : Verified existing newkey s) × (t ≡ recorded device existing newkey s v))

  enroll_recovery-Triple :
      (host : Machine) (armed : Bool) (is_file : Text → Bool) (args : List Text) (s₀ : Records k)
      → Triple
          (λ s. s ≡ s₀)
          (enroll_recovery host armed is_file args)
          (λ _ t. Enrolled args s₀ t)
          (λ t. Unrecorded s₀ t ⊎ VerifiedKeys args s₀)
  unfolding enroll_recovery
  enroll_recovery-Triple host armed is_file args s₀ =
      let stay : Unrecorded s₀ s₀ ⊎ VerifiedKeys args s₀ = inl (s₀.device, refl) in
      check-Triple _ stay λ _ _. check-Triple _ stay λ _ _. check-Triple _ stay λ _ _.
        check-Triple _ stay λ device d. check-Triple _ stay λ existing e.
          check-Triple _ stay λ newkey n. check-Triple _ stay λ _ _.
            to-Triple
              (λ _ t h.
                (device, existing, newkey, there _ _ d, there _ _ e, there _ _ n, (h.0, h.1)))
              (loosen-Triple (λ s h. widened existing newkey (there _ _ e) (there _ _ n) s h)
                (add_recovery-Triple is_file device existing newkey s₀))
    where
      widened :
          (existing newkey : Text)
          → Given args "--existing-keyfile" existing
          → Given args "--new-keyfile" newkey
          → (s : Records k) → Unrecorded s₀ s ⊎ Verified existing newkey s₀
          → Unrecorded s₀ s ⊎ VerifiedKeys args s₀
      widened existing newkey e n s (inl u) = inl u
      widened existing newkey e n s (inr v) = inr (existing, newkey, e, n, v)

-- Where `enroll_recovery` returns, the daily slot that it recorded is the only one that the key file of
-- --existing-keyfile opened, the recovery slot is the only one that the addition of the key file of
-- --new-keyfile added and the only one that this file opens, the two differ, the recorded device is that
-- of --device, and the registry is these two slots. Wherever else it ends, no record has changed, unless
-- all that had been verified.
pub enroll_recovery_verifies :
    {k : Keyring} (host : Machine) (armed : Bool) (is_file : Text → Bool) (args : List Text)
    (s : Records k) (w : List Fate)
    → Ends
        (λ _ t. Enrolled args s t)
        (λ t. Unrecorded s t ⊎ VerifiedKeys args s)
        (enroll_recovery host armed is_file args s w)
enroll_recovery_verifies host armed is_file args s w =
    (enroll_recovery-Triple host armed is_file args s).run s w refl
