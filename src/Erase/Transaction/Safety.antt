-- ===== src/Erase/Transaction/Safety.antt =====
-- The transaction touches no keyslot but the daily one.
use deathstr0ke.Base.{
  ℕ, ◌≡◌, ◌≢◌, refl, ◌∙◌, Bool, true, false, Option, none, some, List, ◌⊎◌, inl, inr, arith,
}
use deathstr0ke.Effects.{Fate, final}
use deathstr0ke.Effects.Laws.{
  Triple, Keeps, final-Keeps, fail-Keeps, >>=-Keeps, >>=-Triple, given-Triple, from-Triple,
  pure-Triple, lift-Keeps, query-Keeps, act-Keeps, when-Keeps, zoom-Keeps,
}
use deathstr0ke.Luks.{Cryptsetup, IsFaithful, active}
use deathstr0ke.Erase.Journal.{
  Journal, Phase, prepared, backups_handled, keyslots_destroyed, kill_slot,
}
use deathstr0ke.Erase.World.{World, Codec}
use deathstr0ke.Erase.World.Quiet.{write_journal-Keeps, remove_journal-Keeps}
use deathstr0ke.Erase.Transaction.Quiet.{verify_keyslot_outcome-Keeps, shut_down-Keeps}
use deathstr0ke.Erase.Transaction.{
  keyslot_active, destroy_by_mode, handle_backups, destroy_keyslots, finish, first_phase,
  second_phase, third_phase, run_transaction,
}

-- The journal of a slot destruction, whatever its phase.
abbrev pub Targets : ℕ → Option ℕ → Journal → Type 0
Targets daily recovery j =
    (j.mode ≡ kill_slot) × (j.slot ≡ some daily) × (j.recovery_slot ≡ recovery)

abbrev Past : Phase → Type 0
Past p = (p ≡ backups_handled) ⊎ (p ≡ keyslots_destroyed)

module _ {c : Cryptsetup} (Q : c.Device → Type 0) (daily : ℕ)
    (kill : (d : c.Device) → Q d → Q (c.luks_kill_slot daily d)) (codec : Codec)
    (recovery : Option ℕ) where
  abbrev On : World c → Type 0
  On s = Q s.device

  destroy_by_mode-Keeps : (r : Option ℕ) → Keeps On (destroy_by_mode kill_slot (some daily) r)
  unfolding destroy_by_mode keyslot_active
  destroy_by_mode-Keeps none = fail-Keeps _
  destroy_by_mode-Keeps (some r) = >>=-Keeps (query-Keeps _ _) λ _. >>=-Keeps (lift-Keeps _) λ _.
      >>=-Keeps (query-Keeps _ _)
        λ present. when-Keeps present (act-Keeps _ _ λ s h. kill s.device h)

  -- A phase hands the same targets on, at the next phase.
  abbrev Handed : (Phase → Type 0) → Journal → World c → Type 0
  Handed F j s = On s × Targets daily recovery j × F j.phase

  first_phase-Triple :
      (p : Phase) (j : Journal)
      → j.phase ≡ p
      → Targets daily recovery j
      → Triple On (first_phase codec p j) (Handed Past) On
  unfolding first_phase handle_backups
  first_phase-Triple prepared j e t =
      >>=-Triple (λ _. On) (zoom-Keeps _ _ _ λ s t h. h)
        λ _.
          >>=-Triple (λ _. On) (write_journal-Keeps Q codec _)
            λ _. pure-Triple _ (λ s h. (h, t, inl refl))
  first_phase-Triple backups_handled j e t = pure-Triple _ (λ s h. (h, t, inl e))
  first_phase-Triple keyslots_destroyed j e t = pure-Triple _ (λ s h. (h, t, inr e))

  second_phase-Triple :
      (p : Phase) (j : Journal)
      → j.phase ≡ p
      → Targets daily recovery j
      → Past p
      → Triple On (second_phase codec p j) (Handed (λ q. q ≡ keyslots_destroyed)) On
  unfolding second_phase destroy_keyslots
  second_phase-Triple prepared j e t past = absurd (ground arith)
  second_phase-Triple backups_handled j e t past =
      >>=-Triple (λ _. On) (rw (t.0, t.1) (destroy_by_mode-Keeps j.recovery_slot))
        λ _.
          >>=-Triple (λ _. On) (verify_keyslot_outcome-Keeps Q j)
            λ _.
              >>=-Triple (λ _. On) (write_journal-Keeps Q codec _)
                λ _. pure-Triple _ (λ s h. (h, t, refl))
  second_phase-Triple keyslots_destroyed j e t past = pure-Triple _ (λ s h. (h, t, e))

  finish-Keeps : (j : Journal) (b : Bool) → Keeps On (finish j b)
  unfolding finish
  finish-Keeps j true = >>=-Keeps (verify_keyslot_outcome-Keeps Q j) λ _. remove_journal-Keeps Q
  finish-Keeps j false = >>=-Keeps (verify_keyslot_outcome-Keeps Q j) λ _. shut_down-Keeps Q j

  -- The whole run, for any end `Z` of its last step.
  pub run_transaction-Triple :
      (j : Journal) (b : Bool) (Z : World c → Type 0)
      → Targets daily recovery j
      → ((k : Journal) → Targets daily recovery k → Triple On (finish k b) (λ _. Z) On)
      → Triple On (run_transaction codec j b) (λ _. Z) On
  unfolding run_transaction third_phase
  run_transaction-Triple j b Z t last =
      >>=-Triple (Handed Past) (first_phase-Triple j.phase j refl t) λ k.
        >>=-Triple (Handed (λ q. q ≡ keyslots_destroyed))
          (given-Triple (λ s h. (h.1, h.2))
            λ (known : Targets daily recovery k × Past k.phase).
              from-Triple (λ s h. h.0) (second_phase-Triple k.phase k refl known.0 known.1))
          λ l.
            given-Triple (λ s h. (h.1, h.2))
              λ (known : Targets daily recovery l × (l.phase ≡ keyslots_destroyed)).
                rw known.1 (from-Triple (λ s h. h.0) (last l known.0))

  pub run_transaction-Keeps :
      (j : Journal) (b : Bool) → Targets daily recovery j → Keeps On (run_transaction codec j b)
  run_transaction-Keeps j b t = run_transaction-Triple j b On t (λ k _. finish-Keeps k b)

-- Wherever the transaction of a slot destruction starts from and however it ends, by success, by an
-- error or by a power cut at any step, every keyslot but the daily one is as active as before, given
-- that luksKillSlot of cryptsetup leaves the other slots alone. So the recovery slot survives.
pub run_transaction_spares :
    {c : Cryptsetup} (faithful : IsFaithful c) (codec : Codec) (daily : ℕ) (recovery : Option ℕ)
    (j : Journal) (no_poweroff : Bool) (s : World c) (w : List Fate)
    → Targets daily recovery j
    → (m : ℕ) → m ≢ daily
    → active c (final (run_transaction codec j no_poweroff s w)).device m ≡ active c s.device m
run_transaction_spares {c} faithful codec daily recovery j no_poweroff s w t m other =
    final-Keeps _ _
      (run_transaction-Keeps (λ d. active c d m ≡ active c s.device m) daily
        (λ d h. faithful.kill_other d daily m other ∙ h) codec recovery j no_poweroff t)
      s w refl
