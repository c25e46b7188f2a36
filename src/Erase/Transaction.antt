-- ===== src/Erase/Transaction.antt =====
-- `run_transaction` of ds-erase/src/main.rs and what it calls: the three phases of the journal, from
-- the one it stands at to the end.
pub mod Quiet
pub mod Safety
pub mod Outcome
pub mod Completion
pub mod Refinement
use deathstr0ke.Base.{
  ℕ, zero, suc, Bool, true, false, not, ◌&&◌, List, [], ◌∷◌, ◌++◌, Option, none, some, ltb,
  if◌then◌else◌, String, Result, ok, err, length, expect_some, bail_if,
}
use deathstr0ke.Text.{Text, codes, text_eq}
use deathstr0ke.Effects.{
  Prog, ◌>>=◌, ◌>>◌, pure, fail, lift, act, act_half, query, attempt, zoom, when,
}
use deathstr0ke.Luks.{Cryptsetup, slots_of_dump, contains, active}
use deathstr0ke.Erase.Journal.{
  Journal, Phase, prepared, backups_handled, keyslots_destroyed, EraseMode, kill_slot, erase,
}
use deathstr0ke.Erase.Headers.{destroy_header_backups}
use deathstr0ke.Erase.World.{World, Codec, write_journal, remove_journal}

-- An unreadable /sys/class/net gives no link.
listed : Option (List Text) → List Text
listed none = []
listed (some names) = names

module _ {c : Cryptsetup} where
  unfoldable pub keyslot_active : ℕ → Prog (World c) Bool
  keyslot_active slot = query "luksDump failed" (λ (s : World c). ok (active c s.device slot))

  unfoldable pub active_keyslots : Prog (World c) ℕ
  active_keyslots =
      query "luksDump failed" (λ (s : World c). ok (length (slots_of_dump (c.luks_dump s.device))))

  unfoldable pub luks_kill_slot : ℕ → Prog (World c) (Unit {0})
  luks_kill_slot slot =
      act "luksKillSlot failed"
        (λ (s : World c). record s { device = c.luks_kill_slot slot s.device })

  unfoldable pub luks_erase : Prog (World c) (Unit {0})
  luks_erase =
      act_half "luksErase failed" (λ (s : World c). record s { device = c.luks_erase s.device })
        (λ (s : World c). record s { device = c.luks_erase_partly s.device })

  verify_slots : ℕ → ℕ → Prog (World c) (Unit {0})
  verify_slots daily recovery = do
    remains ← keyslot_active daily
    lift (λ (s : World c). bail_if remains "daily slot remains active after destruction attempt")
    kept ← keyslot_active recovery
    lift (λ (s : World c).
        bail_if (not kept) "recovery slot is not active after daily-slot destruction")

  verify_by_mode : EraseMode → Option ℕ → Option ℕ → Prog (World c) (Unit {0})
  unfolding verify_slots
  verify_by_mode kill_slot none recovery = fail "killslot journal missing daily slot"
  verify_by_mode kill_slot (some daily) none = fail "killslot journal missing recovery slot"
  verify_by_mode kill_slot (some daily) (some recovery) = verify_slots daily recovery
  verify_by_mode erase slot recovery = do
    n ← active_keyslots
    lift (λ (s : World c). bail_if (ltb 0 n) "full erase returned with active keyslots remaining")

  unfoldable pub verify_keyslot_outcome : Journal → Prog (World c) (Unit {0})
  unfolding verify_by_mode
  verify_keyslot_outcome j = verify_by_mode j.mode j.slot j.recovery_slot

  kill_daily : ℕ → ℕ → Prog (World c) (Unit {0})
  unfolding luks_kill_slot
  kill_daily slot recovery = do
    safe ← keyslot_active recovery
    lift (λ (s : World c). bail_if (not safe) "verified recovery slot is not active; refusing")
    present ← keyslot_active slot
    when present (luks_kill_slot slot)

  destroy_by_mode : EraseMode → Option ℕ → Option ℕ → Prog (World c) (Unit {0})
  unfolding kill_daily luks_erase
  destroy_by_mode kill_slot none recovery = fail "killslot journal missing slot"
  destroy_by_mode kill_slot (some slot) none = fail "killslot journal missing recovery slot"
  destroy_by_mode kill_slot (some slot) (some recovery) = kill_daily slot recovery
  destroy_by_mode erase slot recovery = do n ← active_keyslots; when (ltb 0 n) luks_erase

  try_down : Text → Prog (World c) (Unit {0})
  try_down name = do
    ignored ←
        attempt (act "ip link" (λ (s : World c). record s { links_down = name ∷ s.links_down }))
    pure tt

  -- Leaving the network and the seat is tried, and no failure of it is looked at.
  take_down : List Text → Prog (World c) (Unit {0})
  unfolding try_down
  take_down [] = pure tt
  take_down (name ∷ rest) = do
    when (not (text_eq name (codes "lo"))) (try_down name)
    take_down rest

  pub quiesce_network_and_sessions : Prog (World c) (Unit {0})
  unfolding take_down listed
  quiesce_network_and_sessions = do
    ignored ← attempt (act "nmcli" (λ (s : World c). record s { networking_off = true }))
    names ← lift (λ (s : World c). ok (listed s.links))
    take_down names
    ignored' ← attempt (act "loginctl" (λ (s : World c). record s { seat_terminated = true }))
    pure tt

  pub close_mapping : Option Text → Prog (World c) (Unit {0})
  close_mapping none = pure tt
  close_mapping (some name) = do
    ignored ← attempt (act "cryptsetup close" (λ (s : World c). record s { mapping_closed = true }))
    pure tt

  poweroff : String → Prog (World c) (Unit {0})
  poweroff command = act command (λ (s : World c). record s { poweroff_requested = true })

  or_force : Result (Unit {0}) → Prog (World c) (Unit {0})
  unfolding poweroff
  or_force (ok _) = pure tt
  or_force (err e) = poweroff "keyslots destroyed but forced poweroff request failed"

  pub request_poweroff : Prog (World c) (Unit {0})
  unfolding or_force poweroff
  request_poweroff = do result ← attempt (poweroff "systemctl poweroff"); or_force result

  pub shut_down : Journal → Prog (World c) (Unit {0})
  unfolding quiesce_network_and_sessions close_mapping request_poweroff
  shut_down j = do
    quiesce_network_and_sessions
    close_mapping j.map_name
    request_poweroff
    remove_journal

  pub finish : Journal → Bool → Prog (World c) (Unit {0})
  unfolding verify_keyslot_outcome shut_down
  finish j no_poweroff = do
    verify_keyslot_outcome j
    if no_poweroff then remove_journal else shut_down j

  pub third_phase : Phase → Journal → Bool → Prog (World c) (Unit {0})
  unfolding finish
  third_phase prepared j no_poweroff = pure tt
  third_phase backups_handled j no_poweroff = pure tt
  third_phase keyslots_destroyed j no_poweroff = finish j no_poweroff

module _ {c : Cryptsetup} (codec : Codec) where
  pub handle_backups : Journal → Prog (World c) Journal
  handle_backups j = do
    destroyed ←
        zoom (λ (s : World c). s.tree) (λ s t. record s { tree = t })
          (destroy_header_backups j.header_scan)
    let j' : Journal = record j { phase = backups_handled }
    write_journal codec j'
    pure j'

  pub destroy_keyslots : Journal → Prog (World c) Journal
  unfolding destroy_by_mode verify_keyslot_outcome
  destroy_keyslots j = do
    destroy_by_mode j.mode j.slot j.recovery_slot
    verify_keyslot_outcome j
    let j' : Journal = record j { phase = keyslots_destroyed }
    write_journal codec j'
    pure j'

  pub first_phase : Phase → Journal → Prog (World c) Journal
  unfolding handle_backups
  first_phase prepared j = handle_backups j
  first_phase backups_handled j = pure j
  first_phase keyslots_destroyed j = pure j

  pub second_phase : Phase → Journal → Prog (World c) Journal
  unfolding destroy_keyslots
  second_phase prepared j = pure j
  second_phase backups_handled j = destroy_keyslots j
  second_phase keyslots_destroyed j = pure j

  unfoldable pub run_transaction : Journal → Bool → Prog (World c) (Unit {0})
  unfolding first_phase second_phase third_phase
  run_transaction j no_poweroff = do
    j₁ ← first_phase j.phase j
    j₂ ← second_phase j₁.phase j₁
    third_phase j₂.phase j₂ no_poweroff
