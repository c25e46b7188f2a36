-- ===== src/Erase/Commands/Expected.antt =====
-- What `resume` does with a journal that it cannot trust: the ESP is a plaintext partition.
use deathstr0ke.Base.{
  ℕ, ◌≡◌, ◌≢◌, refl, sym, ap, ◌∙◌, Bool, true, false, not, ◌||◌, List, [], ◌∷◌, Option, none, some,
  Result, ok, err, ◌⊎◌, inl, inr, arith, bail_if, String, ◌==◌, context, Result-cases,
}
use deathstr0ke.Base
use deathstr0ke.Text.{Text, codes}
use deathstr0ke.Text.Laws.{text_eq_iff}
use deathstr0ke.Effects.{Fate, final}
use deathstr0ke.Effects.Laws.{Triple, Ends, final-Triple, from-Triple, loosen-Triple, fact-Triple}
use deathstr0ke.Effects.Checks.{check-Triple, passed, passed_not}
use deathstr0ke.Luks.{Cryptsetup, IsFaithful, active}
use deathstr0ke.Erase.Journal.{Journal, EraseMode, kill_slot, erase}
use deathstr0ke.Erase.Arguments.{flag}
use deathstr0ke.Erase.World.{Codec, World}
use deathstr0ke.Erase.Transaction.{run_transaction}
use deathstr0ke.Erase.Transaction.Safety.{Targets, run_transaction-Keeps}
use deathstr0ke.Erase.Host.{Host, guard, read_journal}
use deathstr0ke.Erase.Commands.{
  resume, check, is_killing, is_slot, expected_slot, expected_recovery_slot,
}

-- What the check against the expected slots establishes.
expected_slots :
    (j : Journal) (slot recovery : ℕ)
    → (not (is_killing j.mode)
        || not (is_slot slot j.slot)
        || not (is_slot recovery j.recovery_slot))
      ≡ false
    → Targets slot (some recovery) j
expected_slots j slot recovery h = (
  killing j.mode (ground arith),
  chosen slot j.slot (ground arith),
  chosen recovery j.recovery_slot (ground arith),
)
  where
    killing : (m : EraseMode) → is_killing m ≡ true → m ≡ kill_slot
    killing kill_slot e = refl
    killing erase e = cc

    chosen : (n : ℕ) (o : Option ℕ) → is_slot n o ≡ true → o ≡ some n
    chosen n none e = cc
    chosen n (some m) e = ap (λ k. some k) (ground arith)

module _ {c : Cryptsetup} (host : Host) (codec : Codec) (args : List Text) (s₀ : World c) where
  -- What holds of the arguments and of the journal on the ESP before anything is touched.
  pub record Trusted : Type 0 where
    pub path : Text
    pub device : Text
    pub slot : ℕ
    pub recovery : ℕ
    pub journal : Journal
    pub disposable : host.disposable ≡ true
    pub path_given : flag args (codes "--journal") ≡ some path
    pub device_given : flag args (codes "--expected-device") ≡ some device
    pub slot_given : expected_slot args ≡ ok slot
    pub recovery_given : expected_recovery_slot args ≡ ok recovery
    pub read : read_journal host codec path s₀.journal ≡ ok journal
    pub targets : Targets slot (some recovery) journal
    pub same_device :
        (resolved : Text) × (host.canonicalize journal.device ≡ ok resolved)
        × (host.canonicalize device ≡ ok resolved)

resolved_of : (message : String) (r : Result Text) {t : Text} → context message r ≡ ok t → r ≡ ok t
resolved_of message (ok a) h = cc
resolved_of message (err e) h = cc

given_of :
    (message : String) (o : Option Text) {t : Text} → Base.expect_some message o ≡ ok t → o ≡ some t
given_of message none h = cc
given_of message (some a) h = cc

module _ {c : Cryptsetup} (host : Host) (codec : Codec) (args : List Text) (s₀ : World c)
    {Q R : World c → Type 0} where
  -- The rest of `resume` behind its checks decides what is shown of it.
  resume-Triple :
      R s₀
      → ((k : Trusted host codec args s₀) (b : Bool)
          → Triple (λ s. s ≡ s₀) (run_transaction codec k.journal b) (λ _. Q) R)
      → Triple (λ s. s ≡ s₀) (resume host codec args) (λ _. Q) R
  unfolding resume check
  resume-Triple stay last = check-Triple _ stay λ _ disposable.
      check-Triple _ stay λ path path_given. check-Triple _ stay λ device device_given.
        check-Triple _ stay λ slot slot_given. check-Triple _ stay λ recovery recovery_given.
          check-Triple _ stay λ _ distinct. check-Triple _ stay λ _ valid_path.
            check-Triple _ stay λ j read. check-Triple _ stay λ _ matching.
              check-Triple _ stay λ found found_at. check-Triple _ stay λ trusted trusted_at.
                check-Triple _ stay λ _ same_device. check-Triple _ stay λ _ map_checked.
                  check-Triple _ stay λ _ target_valid.
                    last
                      (record {
                        path = path;
                        device = device;
                        slot = slot;
                        recovery = recovery;
                        journal = j;
                        disposable = unfold guard in passed_not host.disposable _ disposable;
                        path_given = given_of _ _ path_given;
                        device_given = given_of _ _ device_given;
                        slot_given = slot_given;
                        recovery_given = recovery_given;
                        read = read;
                        targets = expected_slots j slot recovery (
                            passed _
                              "journal mode/daily/recovery slots do not match the trusted boot expectation"
                              matching);
                        same_device = (
                          found,
                          resolved_of _ _ found_at,
                          resolved_of _ _ trusted_at
                              ∙ ap (λ t. ok t)
                                  (sym (
                                    (text_eq_iff found trusted).0 (
                                      passed_not _
                                        "journal device does not match the trusted boot target"
                                        same_device))),
                        );
                      })
                      _

-- Whatever stands in the journal on the ESP, and however `resume` ends, it touches no keyslot but the
-- one that the boot configuration expects, given that luksKillSlot leaves the other slots alone.
pub resume_spares :
    {c : Cryptsetup} (faithful : IsFaithful c) (host : Host) (codec : Codec) (args : List Text)
    (s : World c) (w : List Fate) (m : ℕ)
    → expected_slot args ≢ ok m
    → active c (final (resume host codec args s w)).device m ≡ active c s.device m
resume_spares {c} faithful host codec args s w m other =
    final-Triple
      (resume-Triple host codec args s {Q = λ t. active c t.device m ≡ active c s.device m} refl
        λ k b.
          from-Triple (λ t e. rw e refl)
            (run_transaction-Keeps (λ d. active c d m ≡ active c s.device m) k.slot
              (λ d h.
                faithful.kill_other d k.slot m (λ e. other (k.slot_given ∙ ap (λ n. ok n) (sym e)))
                ∙ h)
              codec (some k.recovery) k.journal b k.targets))
      s w refl

-- `resume` returns, or changes anything at all, only on a machine marked disposable, with the four
-- arguments that it requires, and with a journal that can be read, passes the checks on journals, has
-- the expected slots, and names a device that resolves to the expected one. Otherwise it fails with
-- everything as it was.
pub resume_needs_trust :
    {c : Cryptsetup} (host : Host) (codec : Codec) (args : List Text) (s : World c) (w : List Fate)
    → Ends
        (λ _ _. Trusted host codec args s)
        (λ t. (t ≡ s) ⊎ Trusted host codec args s)
        (resume host codec args s w)
resume_needs_trust {c} host codec args s w =
    (resume-Triple host codec args s {Q = λ _. Trusted host codec args s} (inl refl)
        λ k b. from-Triple (λ t e. tt) (loosen-Triple (λ t h. inr h) (fact-Triple _ k))).run
      s w refl
