-- ===== src/Erase/Commands/Fired.antt =====
-- What `fire` does to the slots when the command line chooses one slot.
use deathstr0ke.Base.{◌≡◌, ◌≢◌, refl, sym, ◌∙◌, ℕ, Bool, List, Option, some, ok}
use deathstr0ke.Text.{Text}
use deathstr0ke.Files.{readable}
use deathstr0ke.Effects.{Fate, final}
use deathstr0ke.Effects.Laws.{Triple, Keeps, final-Triple, from-Triple, >>=-Triple}
use deathstr0ke.Effects.Checks.{check-Triple}
use deathstr0ke.Luks.{Cryptsetup, IsFaithful, active}
use deathstr0ke.Erase.Journal.{Journal, kill_slot}
use deathstr0ke.Erase.Arguments.{Choice, parse_mode}
use deathstr0ke.Erase.World.{Codec, World}
use deathstr0ke.Erase.World.Quiet.{write_journal-Keeps}
use deathstr0ke.Erase.Transaction.Safety.{Targets, run_transaction-Keeps}
use deathstr0ke.Erase.Host.{Host}
use deathstr0ke.Erase.Commands.{fire, check, write_and_run}

-- The choice of one slot's destruction.
abbrev pub one_slot :
    (daily_file recovery_file : Option Text) → ℕ → ℕ → Choice daily_file recovery_file
one_slot daily_file recovery_file slot recovery = record {
  mode = kill_slot;
  slot = some slot;
  recovery_slot = some recovery;
}

module _ {c : Cryptsetup} (host : Host) (codec : Codec) (args : List Text) (slot recovery : ℕ)
    (chosen : parse_mode (readable host.daily_slot) (readable host.recovery_slot) args
      ≡ ok (one_slot (readable host.daily_slot) (readable host.recovery_slot) slot recovery))
    (s₀ : World c) where
  same_choice :
      (a : Choice (readable host.daily_slot) (readable host.recovery_slot))
      → parse_mode (readable host.daily_slot) (readable host.recovery_slot) args ≡ ok a
      → (a.mode ≡ kill_slot) × (a.slot ≡ some slot) × (a.recovery_slot ≡ some recovery)
  same_choice a e = injected (sym chosen ∙ e)
    where
      injected :
          ok (one_slot (readable host.daily_slot) (readable host.recovery_slot) slot recovery)
            ≡ ok a
          → (a.mode ≡ kill_slot) × (a.slot ≡ some slot) × (a.recovery_slot ≡ some recovery)
      injected k = (cc, cc, cc)

  write_and_run-Keeps :
      (Q : c.Device → Type 0)
      → ((d : c.Device) → Q d → Q (c.luks_kill_slot slot d))
      → (j : Journal) (b : Bool) → Targets slot (some recovery) j
      → Keeps (λ (t : World c). Q t.device) (write_and_run host codec j b)
  unfolding write_and_run
  write_and_run-Keeps Q kill j b t =
      >>=-Triple (λ _ u. Q u.device) (write_journal-Keeps Q codec j)
        λ _. run_transaction-Keeps Q slot kill codec (some recovery) j b t

  fire-Triple :
      (Q : c.Device → Type 0)
      → ((d : c.Device) → Q d → Q (c.luks_kill_slot slot d))
      → Q s₀.device
      → Triple (λ s. s ≡ s₀) (fire host codec args) (λ _ t. Q t.device) (λ t. Q t.device)
  unfolding fire check
  fire-Triple Q kill start = check-Triple _ start λ _ _. check-Triple _ start λ device _.
      check-Triple _ start λ _ _. check-Triple _ start λ choice chosen_as.
        check-Triple _ start λ _ _. check-Triple _ start λ _ _. check-Triple _ start λ _ _.
          check-Triple _ start λ _ _.
            from-Triple (λ t e. rw e start)
              (write_and_run-Keeps Q kill _ _ (same_choice choice chosen_as))

-- With a command line that chooses one slot, `fire` touches no other keyslot, however it ends, given
-- that luksKillSlot leaves the other slots alone.
pub fire_spares :
    {c : Cryptsetup} (faithful : IsFaithful c) (host : Host) (codec : Codec) (args : List Text)
    (slot recovery : ℕ) (s : World c) (w : List Fate) (m : ℕ)
    → parse_mode (readable host.daily_slot) (readable host.recovery_slot) args
      ≡ ok (one_slot (readable host.daily_slot) (readable host.recovery_slot) slot recovery)
    → m ≢ slot
    → active c (final (fire host codec args s w)).device m ≡ active c s.device m
fire_spares {c} faithful host codec args slot recovery s w m chosen other =
    final-Triple
      (fire-Triple host codec args slot recovery chosen s (λ d. active c d m ≡ active c s.device m)
        (λ d h. faithful.kill_other d slot m other ∙ h) refl)
      s w refl
