-- ===== src/Unlock/Loop/Verdict.antt =====
-- How the prompt loop can end, whatever is typed and whatever fails.
use deathstr0ke.Base.{
  ℕ, zero, suc, ◌+◌, ◌≡◌, refl, arith, Bool, true, false, leb, List, ◌∷◌, Result, ok, err, context,
  ◌⊎◌, inl, inr, Bool-cases,
}
use deathstr0ke.Text.{Text, as_bytes}
use deathstr0ke.Effects.{Prog, Fate}
use deathstr0ke.Effects.Laws.{
  Triple, Ends, >>=-Triple, lift-Triple, query-Triple, act_half-Triple, pure-Triple, fail-Triple,
  from-Triple, given-Triple,
}
use deathstr0ke.Core.Verifier.{verify}
use deathstr0ke.Unlock.State.{Boot, EraseRun, fire, read_count, bump_count}
use deathstr0ke.Unlock.State.Counter.{read_count-count_text}
use deathstr0ke.Unlock.Prompts.{secret_of_round, prompt_secret, luks_open}
use deathstr0ke.Unlock.Loop.{Session, wipe, escalate, unlocked, judge, try_open, round, prompt_loop}

module _ (x : Session) (runs : List EraseRun) where
  -- A secret that may unlock: it was typed, it is not the duress code, and cryptsetup opens with it.
  abbrev pub Admitted : Type 0
  Admitted =
      (i : ℕ) × (secret : Text) × (secret_of_round x.console i ≡ ok secret)
      × (verify x.crypto x.duress (as_bytes secret) ≡ ok false)
      × (x.console.opens secret ≡ true)

  abbrev pub Locked : Boot → Type 0
  Locked s = (s.mapping_open ≡ false) × (s.erase_runs ≡ runs)

  -- The mapping was opened by an admitted secret, and no erase was started.
  abbrev pub Opened : Boot → Type 0
  Opened s = Admitted × (s.erase_runs ≡ runs)

  abbrev pub Wiped : Boot → Type 0
  Wiped s =
      (s.mapping_open ≡ false)
      × (s.erase_runs ≡ fire x.device x.daily_slot x.recovery_slot x.map ∷ runs)

  abbrev pub Returned : ℕ → Boot → Type 0
  Returned code s =
      ((code ≡ 0) × (s.mapping_open ≡ true) × (read_count s.counter ≡ ok 0) × Opened s)
      ⊎ ((code ≡ 2) × Wiped s)

  -- Behind an error or a power cut.
  abbrev pub Stopped : Boot → Type 0
  Stopped s = Locked s ⊎ Opened s ⊎ Wiped s

  wipe-Triple : Triple Locked (wipe x) Returned Stopped
  unfolding wipe
  wipe-Triple =
      >>=-Triple (λ _. Wiped)
        (act_half-Triple _ _ _ (λ s h. ground arith) (λ s h. inl h)
          (λ s h. inr (inr (ground arith))))
        λ _. pure-Triple _ (λ s h. inr (refl, h))

  unlocked-Triple : Triple (λ s. (s.mapping_open ≡ true) × Opened s) (unlocked x) Returned Stopped
  unfolding unlocked
  unlocked-Triple =
      >>=-Triple (λ _ s. (s.mapping_open ≡ true) × (read_count s.counter ≡ ok 0) × Opened s)
        (act_half-Triple _ _ _ (λ s h. (h.0, read_count-count_text 0 (omega arith), h.1))
          (λ s h. inr (inl h.1)) (λ s h. inr (inl h.1)))
        λ _. pure-Triple _ (λ s h. inl (refl, h.0, h.1, h.2))

  bump_count-Triple : Triple Locked bump_count (λ _. Locked) Stopped
  unfolding bump_count
  bump_count-Triple =
      >>=-Triple (λ _. Locked) (lift-Triple (λ s a h e. h) (λ s h. inl h))
        λ _.
          >>=-Triple (λ _. Locked) (act_half-Triple _ _ _ (λ s h. h) (λ s h. inl h) (λ s h. inl h))
            λ _. pure-Triple _ (λ s h. h)

  module _ (next : Prog Boot ℕ) (onward : Triple Locked next Returned Stopped) where
    escalate-Triple : (n : ℕ) → Triple Locked (escalate x next n) Returned Stopped
    unfolding escalate
    escalate-Triple n = elim (Bool-cases (leb x.policy.wipe_at n)) [
      | inl reached ↦ rw reached wipe-Triple
      | inr below ↦ rw below onward
    ]

    judge-Triple :
        (b : Bool)
        → Triple
            (λ s. ((b ≡ true) × (s.mapping_open ≡ true) × Opened s) ⊎ ((b ≡ false) × Locked s))
            (judge x next b)
            Returned
            Stopped
    unfolding judge
    judge-Triple true = from-Triple (λ s h. opened s h) unlocked-Triple
      where
        opened :
            (s : Boot)
            → ((true ≡ true) × (s.mapping_open ≡ true) × Opened s) ⊎ ((true ≡ false) × Locked s)
            → (s.mapping_open ≡ true) × Opened s
        opened s (inl h) = (h.1, h.2)
        opened s (inr h) = absurd (ground arith)
    judge-Triple false =
        from-Triple (λ s h. locked s h) (>>=-Triple (λ _. Locked) bump_count-Triple escalate-Triple)
      where
        locked :
            (s : Boot)
            → ((false ≡ true) × (s.mapping_open ≡ true) × Opened s) ⊎ ((false ≡ false) × Locked s)
            → Locked s
        locked s (inl h) = absurd (ground arith)
        locked s (inr h) = h.1

    luks_open-Triple :
        (i : ℕ) (secret : Text)
        → secret_of_round x.console i ≡ ok secret
        → verify x.crypto x.duress (as_bytes secret) ≡ ok false
        → Triple Locked
            (luks_open x.console secret)
            (λ b s. ((b ≡ true) × (s.mapping_open ≡ true) × Opened s) ⊎ ((b ≡ false) × Locked s))
            Stopped
    unfolding luks_open
    luks_open-Triple i secret asked not_duress = elim (Bool-cases (x.console.opens secret)) [
      | inl opens ↦ rw opens (
          >>=-Triple (λ _ s. (s.mapping_open ≡ true) × Opened s)
            (act_half-Triple _ _ _ (λ s h. (refl, ((i, secret, asked, not_duress, opens), h.1)))
              (λ s h. inl h) (λ s h. inr (inl ((i, secret, asked, not_duress, opens), h.1))))
            λ _. pure-Triple _ (λ s h. inl (refl, h.0, h.1)))
      | inr closed ↦ rw closed (query-Triple _ (λ s a h e. inr (ground arith)) (λ s h. inl h))
    ]

    try_open-Triple :
        (i : ℕ) (secret : Text) (is_duress : Bool)
        → secret_of_round x.console i ≡ ok secret
        → context "verify duress code" (verify x.crypto x.duress (as_bytes secret)) ≡ ok is_duress
        → Triple Locked (try_open x next secret is_duress) Returned Stopped
    unfolding try_open
    try_open-Triple i secret true asked checked = wipe-Triple
    try_open-Triple i secret false asked checked =
        >>=-Triple _ (luks_open-Triple i secret asked (ok_of_context _ checked)) judge-Triple
      where
        ok_of_context : (r : Result Bool) → context "verify duress code" r ≡ ok false → r ≡ ok false
        ok_of_context (ok b) e = e
        ok_of_context (err m) e = cc

    round-Triple : (i : ℕ) → Triple Locked (round x next i) Returned Stopped
    unfolding round prompt_secret
    round-Triple i =
        >>=-Triple (λ secret s. Locked s × (secret_of_round x.console i ≡ ok secret))
          (query-Triple _ (λ s a h e. (h, e)) (λ s h. inl h))
          λ secret.
            >>=-Triple
              (λ d s.
                Locked s
                × (secret_of_round x.console i ≡ ok secret)
                × (context "verify duress code" (verify x.crypto x.duress (as_bytes secret))
                    ≡ ok d))
              (lift-Triple (λ s a h e. (h.0, h.1, e)) (λ s h. inl h.0))
              λ d.
                given-Triple (λ s h. (h.1, h.2))
                  λ (known : (secret_of_round x.console i ≡ ok secret)
                      × (context "verify duress code" (verify x.crypto x.duress (as_bytes secret))
                          ≡ ok d)).
                    from-Triple (λ s h. h.0) (try_open-Triple i secret d known.0 known.1)

  prompt_loop-Triple : (left i : ℕ) → Triple Locked (prompt_loop x left i) Returned Stopped
  unfolding prompt_loop
  prompt_loop-Triple zero i = fail-Triple _ (λ s h. inl h)
  prompt_loop-Triple (suc left) i =
      round-Triple (prompt_loop x left (i + 1)) (prompt_loop-Triple left (i + 1)) i

-- However the prompts, the faults and the power go: code 0 is returned only with the mapping opened
-- by a typed secret that is not the duress code, the counter at 0 and no erase started; any other
-- returned code is 2, with the erase of the daily slot started once and the mapping closed. A loop
-- that is stopped by an error or a power cut has not both opened the mapping and started an erase.
pub prompt_loop_verdict :
    (x : Session) (left i : ℕ) (s : Boot) (w : List Fate)
    → s.mapping_open ≡ false
    → Ends (Returned x s.erase_runs) (Stopped x s.erase_runs) (prompt_loop x left i s w)
prompt_loop_verdict x left i s w closed =
    (prompt_loop-Triple x s.erase_runs left i).run s w (closed, refl)
