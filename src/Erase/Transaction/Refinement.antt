-- ===== src/Erase/Transaction/Refinement.antt =====
-- The abstract view of the transaction of ds-erase/src/main.rs: a device is its set of active slots.
use deathstr0ke.Base.{
  ℕ, ◌≡◌, ◌≢◌, ap, ◌∙◌, Bool, true, false, [], none, some, ◌==◌, if◌then◌else◌, arith, ==_iff,
  Bool-cases, inl, inr,
}
use mathlib.Core.Path.{fun_ext, sym}
use deathstr0ke.Files.{missing}
use deathstr0ke.Effects.{final, done}
use deathstr0ke.Luks.{Cryptsetup, IsFaithful, active}
use deathstr0ke.Erase.Journal.{Journal, backups_handled}
use deathstr0ke.Erase.World.{Codec, World}
use deathstr0ke.Erase.Transaction.{run_transaction}
use deathstr0ke.Erase.Transaction.Safety.{Targets, run_transaction_spares}
use deathstr0ke.Erase.Transaction.Completion.{run_transaction_completes}

-- A set of slots.
abbrev pub Slots : Type 0
Slots = ℕ → Bool

-- What the transaction promises of it: one slot leaves the set.
abbrev pub without : ℕ → Slots → Slots
without daily slots m = if m == daily then false else slots m

same_slots :
    (daily : ℕ) (before after : Slots)
    → after daily ≡ false
    → ((m : ℕ) → m ≢ daily → after m ≡ before m)
    → (m : ℕ) → after m ≡ without daily before m
same_slots daily before after gone others m = elim (Bool-cases (m == daily)) [
  | inl e ↦ rw e (ap after ((==_iff m daily).0 e) ∙ gone)
  | inr e ↦ rw e (others m (λ x. no_self e x))
]
  where
    no_self : {m : ℕ} → (m == daily) ≡ false → ¬ (m ≡ daily)
    no_self e x = ground arith

-- The transaction of a slot destruction refines the removal of one slot from a set: where nothing
-- fails, it returns, the slots that are active behind it are exactly those before it without the
-- daily one, and no journal is left. The conditions are those of its completion: a journal whose
-- backups are handled, two different slots, an active recovery slot, no journal temporary, and a
-- cryptsetup that kills the slot it is given and no other.
pub run_transaction_refines :
    {c : Cryptsetup} (faithful : IsFaithful c) (codec : Codec) (daily recovery : ℕ) (j : Journal)
    (no_poweroff : Bool) (s : World c)
    → recovery ≢ daily
    → Targets daily (some recovery) j
    → j.phase ≡ backups_handled
    → active c s.device recovery ≡ true
    → s.journal_temp ≡ none
    → (t : World c) × (run_transaction codec j no_poweroff s [] ≡ done tt t [])
      × (active c t.device ≡ without daily (active c s.device))
      × (t.journal ≡ missing)
run_transaction_refines {c} faithful codec daily recovery j no_poweroff s other targets phase safe
      free =
    let (t, returned, finished) =
      run_transaction_completes faithful codec daily recovery j no_poweroff s other targets phase
        safe free in
    (
      t,
      returned,
      fun_ext (
          same_slots daily (active c s.device) (active c t.device) finished.0.0 λ m different.
            ap (λ r. active c (final {S = World c} r).device m) (sym returned)
            ∙ run_transaction_spares faithful codec daily (some recovery) j no_poweroff s [] targets
                m different),
      finished.1,
    )
