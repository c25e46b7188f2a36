-- ===== src/Erase/Transaction/Outcome.antt =====
-- What holds of the device and the journal when the transaction returns success.
use deathstr0ke.Base.{
  ℕ, ◌≡◌, refl, ◌∙◌, Bool, true, false, not, some, List, Result, ok, err, bail_if,
}
use deathstr0ke.Files.{missing}
use deathstr0ke.Effects.{Fate, done}
use mathlib.Core.Path.{subst}
use deathstr0ke.Effects.Laws.{
  Triple, Ends, Caught, >>=-Triple, to-Triple, pure-Triple, lift-Triple, query-Triple,
  act_half-Triple, attempt-Triple, loosen-Triple,
}
use deathstr0ke.Luks.{Cryptsetup, active}
use deathstr0ke.Erase.Journal.{Journal}
use deathstr0ke.Erase.World.{World, Codec}
use deathstr0ke.Erase.World.Quiet.{remove_journal-Triple}
use deathstr0ke.Erase.Transaction.Quiet.{quiesce-Keeps, close_mapping-Keeps}
use deathstr0ke.Erase.Transaction.Safety.{Targets, run_transaction-Triple}
use deathstr0ke.Erase.Transaction.{
  keyslot_active, verify_keyslot_outcome, poweroff, or_force, request_poweroff, shut_down, finish,
  run_transaction,
}

-- The daily slot is gone and the recovery slot is there.
abbrev pub Destroyed : (c : Cryptsetup) → ℕ → ℕ → c.Device → Type 0
Destroyed c daily recovery d = (active c d daily ≡ false) × (active c d recovery ≡ true)

verified_of_kept :
    (k : Bool) {u : Unit {0}}
    → bail_if (not k) "recovery slot is not active after daily-slot destruction" ≡ ok u
    → k ≡ true
verified_of_kept true e = refl
verified_of_kept false e = cc

verified_of_gone :
    (k : Bool) {u : Unit {0}}
    → bail_if k "daily slot remains active after destruction attempt" ≡ ok u
    → k ≡ false
verified_of_gone true e = cc
verified_of_gone false e = refl

module _ {c : Cryptsetup} (daily recovery : ℕ) where
  abbrev Any : World c → Type 0
  Any s = Unit

  abbrev Verified : World c → Type 0
  Verified s = Destroyed c daily recovery s.device

  abbrev pub Finished : Bool → World c → Type 0
  Finished no_poweroff s =
      Destroyed c daily recovery s.device
      × (s.journal ≡ missing)
      × ((no_poweroff ≡ false) → (s.poweroff_requested ≡ true))

  verify-Triple :
      (j : Journal)
      → Targets daily (some recovery) j
      → Triple Any (verify_keyslot_outcome j) (λ _. Verified) Any
  unfolding verify_keyslot_outcome keyslot_active
  verify-Triple j t =
      rw (t.0, t.1, t.2)
        (>>=-Triple (λ b s. active c s.device daily ≡ b)
          (query-Triple _ (λ s a h e. cc) (λ s h. tt))
          λ b.
            >>=-Triple (λ _ s. active c s.device daily ≡ false)
              (lift-Triple (λ s a h e. h ∙ verified_of_gone b e) (λ s h. tt))
              λ _.
                >>=-Triple
                  (λ k s. (active c s.device daily ≡ false) × (active c s.device recovery ≡ k))
                  (query-Triple _ (λ s a h e. (h, cc)) (λ s h. tt))
                  λ k. lift-Triple (λ s a h e. (h.0, h.1 ∙ verified_of_kept k e)) (λ s h. tt))

  abbrev Off : World c → Type 0
  Off s = Verified s × (s.poweroff_requested ≡ true)

  or_force-Triple :
      (r : Result (Unit {0})) → Triple (Caught (λ _. Off) Verified r) (or_force r) (λ _. Off) Any
  unfolding or_force
  or_force-Triple (ok u) = pure-Triple _ (λ s h. h)
  or_force-Triple (err e) = act_half-Triple _ _ _ (λ s h. (h, refl)) (λ s h. tt) (λ s h. tt)

  shut_down-Triple : (j : Journal) → Triple Verified (shut_down j) (λ _. Finished false) Any
  unfolding shut_down request_poweroff poweroff
  shut_down-Triple j =
      >>=-Triple (λ _. Verified)
        (loosen-Triple (λ s h. tt) (quiesce-Keeps (Destroyed c daily recovery)))
        λ _.
          >>=-Triple (λ _. Verified)
            (loosen-Triple (λ s h. tt)
              (close_mapping-Keeps (Destroyed c daily recovery) j.map_name))
            λ _.
              >>=-Triple (λ _. Off)
                (>>=-Triple (Caught (λ _. Off) Verified)
                  (loosen-Triple (λ s h. tt)
                    (attempt-Triple
                      (act_half-Triple _ _ _ (λ s h. (h, refl)) (λ s h. h) (λ s h. h))))
                  or_force-Triple)
                λ _.
                  loosen-Triple (λ s h. tt)
                    (to-Triple (λ a s h. (h.0.0, h.1, λ _. h.0.1))
                      (remove_journal-Triple Off (λ s h. h)))

  finish-Triple :
      (j : Journal) (b : Bool)
      → Targets daily (some recovery) j
      → Triple Any (finish j b) (λ _. Finished b) Any
  unfolding finish
  finish-Triple j true t =
      >>=-Triple (λ _. Verified) (verify-Triple j t)
        λ _.
          loosen-Triple (λ s h. tt)
            (to-Triple (λ a s h. (h.0, h.1, λ e. absurd (cc)))
              (remove_journal-Triple Verified (λ s h. h)))
  finish-Triple j false t = >>=-Triple (λ _. Verified) (verify-Triple j t) λ _. shut_down-Triple j

-- A transaction of a slot destruction that returns success, started at any phase, with any faults
-- on its way, has left the daily slot inactive, the recovery slot active, no journal behind, and a
-- poweroff requested unless the test switch suppressed it.
pub run_transaction_finishes :
    {c : Cryptsetup} (codec : Codec) (daily recovery : ℕ) (j : Journal) (no_poweroff : Bool)
    (s t : World c) (w v : List Fate)
    → Targets daily (some recovery) j
    → run_transaction codec j no_poweroff s w ≡ done tt t v
    → Finished daily recovery no_poweroff t
run_transaction_finishes {c} codec daily recovery j no_poweroff s t w v targets e =
    subst (Ends (λ _. Finished daily recovery no_poweroff) (λ _. Unit)) e (
      (run_transaction-Triple (λ _. Unit) daily (λ d h. tt) codec (some recovery) j no_poweroff
          (Finished daily recovery no_poweroff) targets
          (λ k known. finish-Triple daily recovery k no_poweroff known)).run
        s w tt)
