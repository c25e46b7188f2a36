-- ===== src/Erase/Transaction/Completion.antt =====
-- That the transaction comes to its end where nothing fails.
use deathstr0ke.Base.{
  ℕ, ◌≡◌, ◌≢◌, refl, sym, subst, ap, ◌∙◌, Bool, true, false, not, List, [], ◌∷◌, Option, none, some,
  ok, if◌then◌else◌, Bool-cases, inl, inr,
}
use deathstr0ke.Text.{Text, codes, text_eq}
use deathstr0ke.Files.{text, missing, is_file}
use deathstr0ke.Effects.{Prog, done, when}
use deathstr0ke.Effects.Runs.{
  Comes, >>=-Comes, lift-Comes, attempt-Comes, pure-Comes, act_half-Comes, query-Comes,
}
use deathstr0ke.Luks.{Cryptsetup, IsFaithful, active}
use deathstr0ke.Erase.Journal.{Journal, backups_handled, keyslots_destroyed}
use deathstr0ke.Erase.World.{Codec, World, remove_journal, journal_text}
use deathstr0ke.Erase.Transaction.Safety.{Targets}
use deathstr0ke.Erase.World.Runs.{write_journal-Comes, remove_journal-Comes}
use deathstr0ke.Erase.Transaction.Outcome.{Destroyed, Finished, run_transaction_finishes}
use deathstr0ke.Erase.Transaction.{
  keyslot_active, luks_kill_slot, verify_slots, verify_by_mode, verify_keyslot_outcome, kill_daily,
  destroy_by_mode, destroy_keyslots, try_down, take_down, quiesce_network_and_sessions, listed,
  close_mapping, poweroff, or_force, request_poweroff, shut_down, finish, first_phase, second_phase,
  third_phase, run_transaction,
}

module _ {c : Cryptsetup} (faithful : IsFaithful c) (daily recovery : ℕ)
    (other : recovery ≢ daily) where
  -- A slot reads as it is.
  reads :
      (slot : ℕ) (b : Bool) (s : World c)
      → active c s.device slot ≡ b
      → Comes (keyslot_active slot) s [] (done b s [])
  unfolding keyslot_active
  reads slot b s h = query-Comes _ _ (ap (λ x. ok x) h)

  kills :
      (s : World c)
      → active c s.device recovery ≡ true
      → (d : c.Device) × Comes
          (kill_daily daily recovery)
          s
          []
          (done tt (record s { device = d }) [])
        × Destroyed c daily recovery d
  unfolding kill_daily luks_kill_slot when
  kills s safe = elim (Bool-cases (active c s.device daily)) [
    | inl present ↦ (
      c.luks_kill_slot daily s.device,
      >>=-Comes _ (reads recovery true s safe) (
          >>=-Comes _ (lift-Comes _ refl)
            (>>=-Comes _ (reads daily true s present) (act_half-Comes _ _ _))),
      (faithful.kill_self s.device daily, faithful.kill_other s.device daily recovery other ∙ safe),
    )
    | inr gone ↦ (
      s.device,
      >>=-Comes _ (reads recovery true s safe)
          (>>=-Comes _ (lift-Comes _ refl) (>>=-Comes _ (reads daily false s gone) (pure-Comes _))),
      (gone, safe),
    )
  ]

  verifies :
      (j : Journal) (s : World c)
      → Targets daily (some recovery) j
      → Destroyed c daily recovery s.device
      → Comes (verify_keyslot_outcome j) s [] (done tt s [])
  unfolding verify_keyslot_outcome verify_by_mode verify_slots
  verifies j s t h =
      rw (t.0, t.1, t.2)
        (>>=-Comes _ (reads daily false s h.0) (
          >>=-Comes _ (lift-Comes _ refl)
            (>>=-Comes _ (reads recovery true s h.1) (lift-Comes _ refl))))

  destroys :
      (j : Journal) (s : World c)
      → Targets daily (some recovery) j
      → active c s.device recovery ≡ true
      → (d : c.Device) × Comes
          (destroy_by_mode j.mode j.slot j.recovery_slot)
          s
          []
          (done tt (record s { device = d }) [])
        × Destroyed c daily recovery d
  unfolding destroy_by_mode
  destroys j s t safe = rw (t.0, t.1, t.2) (kills s safe)

-- A program that returns and leaves the device and the journal as they are.
abbrev Quietly : {c : Cryptsetup} → Prog (World c) (Unit {0}) → World c → Type 0
Quietly {c} m s =
    (s' : World c) × Comes m s [] (done tt s' [])
    × (s'.device ≡ s.device)
    × (s'.journal ≡ s.journal)

module _ {c : Cryptsetup} where
  link_down : (b : Bool) (name : Text) (s : World c) → Quietly (when b (try_down name)) s
  unfolding when try_down
  link_down true name s = (
    record s { links_down = name ∷ s.links_down },
    >>=-Comes _ (attempt-Comes (act_half-Comes _ _ _)) (pure-Comes _),
    refl,
    refl,
  )
  link_down false name s = (s, pure-Comes _, refl, refl)

  links_down : (names : List Text) (s : World c) → Quietly (take_down names) s
  unfolding take_down
  links_down [] s = (s, pure-Comes _, refl, refl)
  links_down (name ∷ rest) s =
      let (s₁, one, d₁, j₁) = link_down (not (text_eq name (codes "lo"))) name s in
      let (s₂, more, d₂, j₂) = links_down rest s₁ in (s₂, >>=-Comes _ one more, d₂ ∙ d₁, j₂ ∙ j₁)

  quiesces : (s : World c) → Quietly quiesce_network_and_sessions s
  unfolding quiesce_network_and_sessions
  quiesces s =
      let off : World c = record s { networking_off = true } in
      let (s₁, down, d₁, j₁) = links_down (listed s.links) off in
      (
        record s₁ { seat_terminated = true },
        >>=-Comes _ (attempt-Comes (act_half-Comes _ _ _)) (
            >>=-Comes _ (lift-Comes _ refl) (
              >>=-Comes _ down
                (>>=-Comes _ (attempt-Comes (act_half-Comes _ _ _)) (pure-Comes _)))),
        d₁,
        j₁,
      )

  closes : (map_name : Option Text) (s : World c) → Quietly (close_mapping map_name) s
  unfolding close_mapping
  closes none s = (s, pure-Comes _, refl, refl)
  closes (some name) s = (
    record s { mapping_closed = true },
    >>=-Comes _ (attempt-Comes (act_half-Comes _ _ _)) (pure-Comes _),
    refl,
    refl,
  )

  shuts_down :
      (j : Journal) (s : World c)
      → is_file s.journal ≡ true
      → (t : World c) × Comes (shut_down j) s [] (done tt t [])
  unfolding shut_down request_poweroff or_force poweroff
  shuts_down j s there =
      let (s₁, quiet, d₁, j₁) = quiesces s in
      let (s₂, closed, d₂, j₂) = closes j.map_name s₁ in
      (
        record s₂ { poweroff_requested = true; journal = missing },
        >>=-Comes _ quiet (
            >>=-Comes _ closed (
              >>=-Comes _ (>>=-Comes _ (attempt-Comes (act_half-Comes _ _ _)) (pure-Comes _))
                (remove_journal-Comes _ (ap is_file (j₂ ∙ j₁) ∙ there)))),
      )

  ends :
      (no_poweroff : Bool) (j : Journal) (s : World c)
      → is_file s.journal ≡ true
      → (t : World c) × Comes
          (if no_poweroff then remove_journal else shut_down j)
          s
          []
          (done tt t [])
  ends true j s there = (record s { journal = missing }, remove_journal-Comes s there)
  ends false j s there = shuts_down j s there

-- From a journal whose backups are handled, with two different slots, the recovery slot active and
-- no journal temporary left over, and with a cryptsetup that kills the slot it is given and no other,
-- the transaction of a slot destruction returns where nothing fails. It has then left the daily slot
-- inactive, the recovery slot active and no journal, and requested a poweroff unless the test switch
-- suppressed it.
pub run_transaction_completes :
    {c : Cryptsetup} (faithful : IsFaithful c) (codec : Codec) (daily recovery : ℕ) (j : Journal)
    (no_poweroff : Bool) (s : World c)
    → recovery ≢ daily
    → Targets daily (some recovery) j
    → j.phase ≡ backups_handled
    → active c s.device recovery ≡ true
    → s.journal_temp ≡ none
    → (t : World c) × (run_transaction codec j no_poweroff s [] ≡ done tt t [])
      × Finished daily recovery no_poweroff t
unfolding run_transaction first_phase second_phase third_phase destroy_keyslots finish
run_transaction_completes {c} faithful codec daily recovery j no_poweroff s other targets phase safe
      free =
    let (d, killed, gone) = destroys faithful daily recovery other j s targets safe in
    let last : Journal = record j { phase = keyslots_destroyed } in
    let written : World c = record s {
      device = d;
      journal = text (journal_text codec last);
      journal_temp = none;
    } in
    let (t, ended) = ends no_poweroff last written refl in
    let whole : Comes (run_transaction codec j no_poweroff) s [] (done tt t []) =
      >>=-Comes _
        (subst (λ p. Comes (first_phase codec p j) s [] (done j s [])) (sym phase) (pure-Comes j))
        (>>=-Comes _
          (subst (λ p. Comes (second_phase codec p j) s [] (done last written [])) (sym phase)
            (>>=-Comes _ killed (
              >>=-Comes _ (verifies faithful daily recovery other j _ targets gone)
                (>>=-Comes _ (write_journal-Comes codec last _ free) (pure-Comes last)))))
          (>>=-Comes _ (verifies faithful daily recovery other last written targets gone) ended)) in
    (
      t,
      whole.run,
      run_transaction_finishes codec daily recovery j no_poweroff s t [] [] targets whole.run,
    )
