-- ===== src/Erase/Transaction/Quiet.antt =====
-- The steps of the transaction that leave the keyslots alone: whatever holds of the device holds
-- behind them, at every power cut and after every error.
use deathstr0ke.Base.{ℕ, List, [], ◌∷◌, Option, none, some, Result, ok, err}
use deathstr0ke.Text.{Text}
use deathstr0ke.Effects.Laws.{
  Keeps, pure-Keeps, fail-Keeps, >>=-Keeps, lift-Keeps, query-Keeps, act-Keeps, when-Keeps,
  attempt-Keeps, zoom-Keeps,
}
use deathstr0ke.Luks.{Cryptsetup}
use deathstr0ke.Erase.Journal.{Journal, EraseMode, kill_slot, erase}
use deathstr0ke.Erase.World.{World, Codec}
use deathstr0ke.Erase.World.Quiet.{write_journal-Keeps, remove_journal-Keeps}
use deathstr0ke.Erase.Transaction.{
  keyslot_active, active_keyslots, verify_keyslot_outcome, verify_by_mode, take_down,
  quiesce_network_and_sessions, close_mapping, or_force, request_poweroff, handle_backups,
  shut_down,
}

module _ {c : Cryptsetup} (Q : c.Device → Type 0) where
  abbrev pub On : World c → Type 0
  On s = Q s.device

  pub verify_keyslot_outcome-Keeps : (j : Journal) → Keeps On (verify_keyslot_outcome j)
  unfolding verify_keyslot_outcome keyslot_active active_keyslots
  verify_keyslot_outcome-Keeps j = by_mode j.mode j.slot j.recovery_slot
    where
      by_mode :
          (mode : EraseMode) (slot recovery : Option ℕ)
          → Keeps On (verify_by_mode mode slot recovery)
      by_mode kill_slot none recovery = fail-Keeps _
      by_mode kill_slot (some daily) none = fail-Keeps _
      by_mode kill_slot (some daily) (some recovery) =
          >>=-Keeps (query-Keeps _ _)
            λ _. >>=-Keeps (lift-Keeps _) λ _. >>=-Keeps (query-Keeps _ _) λ _. lift-Keeps _
      by_mode erase slot recovery = >>=-Keeps (query-Keeps _ _) λ _. lift-Keeps _

  take_down-Keeps : (names : List Text) → Keeps On (take_down names)
  unfolding take_down
  take_down-Keeps [] = pure-Keeps _
  take_down-Keeps (name ∷ rest) =
      >>=-Keeps
        (when-Keeps _ (>>=-Keeps (attempt-Keeps (act-Keeps _ _ λ s h. h)) λ _. pure-Keeps _))
        λ _. take_down-Keeps rest

  pub close_mapping-Keeps : (map_name : Option Text) → Keeps On (close_mapping map_name)
  unfolding close_mapping
  close_mapping-Keeps none = pure-Keeps _
  close_mapping-Keeps (some name) =
      >>=-Keeps (attempt-Keeps (act-Keeps _ _ λ s h. h)) λ _. pure-Keeps _

  or_force-Keeps : (r : Result (Unit {0})) → Keeps On (or_force r)
  unfolding or_force
  or_force-Keeps (ok u) = pure-Keeps _
  or_force-Keeps (err e) = act-Keeps _ _ λ s h. h

  -- Everything between the last verification and the removal of the journal.
  pub quiesce-Keeps : Keeps On quiesce_network_and_sessions
  unfolding quiesce_network_and_sessions
  quiesce-Keeps = >>=-Keeps (attempt-Keeps (act-Keeps _ _ λ s h. h)) λ _.
      >>=-Keeps (lift-Keeps _) λ names.
        >>=-Keeps (take_down-Keeps names)
          λ _. >>=-Keeps (attempt-Keeps (act-Keeps _ _ λ s h. h)) λ _. pure-Keeps _

  pub request_poweroff-Keeps : Keeps On request_poweroff
  unfolding request_poweroff
  request_poweroff-Keeps = >>=-Keeps (attempt-Keeps (act-Keeps _ _ λ s h. h)) or_force-Keeps

  pub handle_backups-Keeps : (codec : Codec) (j : Journal) → Keeps On (handle_backups codec j)
  unfolding handle_backups
  handle_backups-Keeps codec j =
      >>=-Keeps (zoom-Keeps _ _ _ λ s t h. h)
        λ _. >>=-Keeps (write_journal-Keeps Q codec _) λ _. pure-Keeps _

  pub shut_down-Keeps : (j : Journal) → Keeps On (shut_down j)
  unfolding shut_down
  shut_down-Keeps j = >>=-Keeps quiesce-Keeps λ _.
      >>=-Keeps (close_mapping-Keeps j.map_name)
        λ _. >>=-Keeps request_poweroff-Keeps λ _. remove_journal-Keeps Q
