-- ===== src/Erase/Journal/Checks.antt =====
-- What the checks on a journal admit.
use deathstr0ke.Base.{
  ℕ, ◌≡◌, ◌≢◌, ◌≤◌, ◌↔◌, refl, true, not, List, [], ◌∷◌, Option, none, some, length, All, Result,
  ok, err, ◌>>=◌, bail_if, context, arith, Option-cases, Result-cases, inl, inr, String,
}
use deathstr0ke.Text.{Text}
use deathstr0ke.FilePath.{path_starts_with, parent}
use deathstr0ke.Erase.Journal.{
  EraseMode, kill_slot, erase, Journal, journal_version, distinct_slots, validate_mode_slots,
  check_journal, check_roots, validate_scan_roots,
}

-- Which slots go with a mode: two different ones of 0 to 31 for one slot's destruction, none for all.
abbrev pub Fits : EraseMode → Option ℕ → Option ℕ → Type 0
Fits kill_slot (some d) (some r) = (d ≤ 31) × (r ≤ 31) × (d ≢ r)
Fits kill_slot (some d) none = ⊥
Fits kill_slot none r = ⊥
Fits erase none none = Unit {0}
Fits erase none (some r) = ⊥
Fits erase (some d) r = ⊥

distinct_slots_sound : (d r : ℕ) → distinct_slots d r ≡ ok tt → (d ≤ 31) × (r ≤ 31) × (d ≢ r)
unfolding distinct_slots
distinct_slots_sound d r e = ground arith

distinct_slots_complete : (d r : ℕ) → (d ≤ 31) × (r ≤ 31) × (d ≢ r) → distinct_slots d r ≡ ok tt
unfolding distinct_slots
distinct_slots_complete d r h = ground arith

-- The slots of a command line or a journal pass exactly if they fit the mode.
pub validate_mode_slots_iff :
    (mode : EraseMode) (slot recovery_slot : Option ℕ)
    → (validate_mode_slots mode slot recovery_slot ≡ ok tt) ↔ Fits mode slot recovery_slot
unfolding validate_mode_slots
validate_mode_slots_iff kill_slot (some d) (some r) =
    (distinct_slots_sound d r, distinct_slots_complete d r)
validate_mode_slots_iff kill_slot (some d) none = (λ e. cc, λ h. absurd h)
validate_mode_slots_iff kill_slot none r = (λ e. cc, λ h. absurd h)
validate_mode_slots_iff erase none none = (λ e. tt, λ h. refl)
validate_mode_slots_iff erase none (some r) = (λ e. cc, λ h. absurd h)
validate_mode_slots_iff erase (some d) r = (λ e. cc, λ h. absurd h)

module _ (canonicalize : Text → Result Text) where
  -- Every scan root, links resolved, lies in the directory of the journal, links resolved.
  abbrev pub Inside : Text → Text → Type 0
  Inside dir root =
      (resolved : Text) × (canonicalize root ≡ ok resolved) × (path_starts_with resolved dir ≡ true)

  check_root_sound :
      (dir root : Text) (rest : List Text) (r : Result Text)
      → canonicalize root ≡ r
      → (context "resolve header scan root" r >>= λ resolved.
          bail_if
            (not (path_starts_with resolved dir))
            "header scan root must stay inside journal ESP directory"
          >>= λ _. check_roots canonicalize dir rest)
        ≡ ok tt
      → Inside dir root × (check_roots canonicalize dir rest ≡ ok tt)
  check_root_sound dir root rest (ok resolved) h e = ((resolved, h, ground arith), ground arith)
  check_root_sound dir root rest (err x) h e = cc

  check_roots_sound :
      (dir : Text) (roots : List Text)
      → check_roots canonicalize dir roots ≡ ok tt
      → All (Inside dir) roots
  unfolding check_roots
  check_roots_sound dir [] e = tt
  check_roots_sound dir (root ∷ rest) e =
      let here = check_root_sound dir root rest (canonicalize root) refl e in
      (here.0, check_roots_sound dir rest here.1)

  -- What a journal that was read gives to the transaction.
  pub record Checked (path : Text) (j : Journal) : Type 0 where
    pub version : j.version ≡ journal_version
    pub fits : Fits j.mode j.slot j.recovery_slot
    pub few_roots : length j.header_scan ≤ 32
    pub directory : Text
    pub home : Text
    pub above : parent path ≡ some directory
    pub resolved : canonicalize directory ≡ ok home
    pub inside : All (Inside home) j.header_scan

  scan_roots_passed :
      (path : Text) (j j' : Journal)
      → check_journal canonicalize path j ≡ ok j'
      → validate_scan_roots canonicalize path j.header_scan ≡ ok tt
  unfolding check_journal
  scan_roots_passed path j j' e = ground arith

  slots_passed :
      (path : Text) (j j' : Journal)
      → check_journal canonicalize path j ≡ ok j'
      → (j.version ≡ journal_version)
        × (validate_mode_slots j.mode j.slot j.recovery_slot ≡ ok tt)
        × (length j.header_scan ≤ 32)
  unfolding check_journal
  slots_passed path j j' e = (ground arith, ground arith, ground arith)

  same_journal : (path : Text) (j j' : Journal) → check_journal canonicalize path j ≡ ok j' → j' ≡ j
  unfolding check_journal
  same_journal path j j' e = ground arith

  directories :
      (path : Text) (roots : List Text)
      → validate_scan_roots canonicalize path roots ≡ ok tt
      → (directory : Text) × (home : Text) × (parent path ≡ some directory)
        × (canonicalize directory ≡ ok home)
        × (check_roots canonicalize home roots ≡ ok tt)
  unfolding validate_scan_roots
  directories path roots e = elim (Option-cases (parent path)) [
    | inl no_parent ↦ absurd (refused (rw no_parent at e))
    | inr above ↦ elim (Result-cases (canonicalize above.0)) [
      | inl home ↦ (above.0, home.0, above.1, home.1, rw (above.1, home.1) at e)
      | inr unknown ↦ absurd (refused (rw (above.1, unknown.1) at e))
    ]
  ]
    where
      refused : {x : String} → ◌≡◌ {A = Result (Unit {0})} (err x) (ok tt) → ⊥
      refused h = cc

  -- A journal that is read back passes on unchanged, and only with the version that the program
  -- writes, slots that fit its mode, and at most 32 scan roots, all inside the journal's directory.
  pub check_journal_sound :
      (path : Text) (j j' : Journal)
      → check_journal canonicalize path j ≡ ok j'
      → (j' ≡ j) × Checked path j
  check_journal_sound path j j' e =
      let passed = slots_passed path j j' e in
      let dirs = directories path j.header_scan (scan_roots_passed path j j' e) in
      (
        same_journal path j j' e,
        record {
          version = passed.0;
          fits = (validate_mode_slots_iff j.mode j.slot j.recovery_slot).0 passed.1;
          few_roots = passed.2;
          directory = dirs.0;
          home = dirs.1;
          above = dirs.2;
          resolved = dirs.3;
          inside = check_roots_sound dirs.1 j.header_scan dirs.4;
        },
      )
