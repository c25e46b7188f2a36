-- ===== src/Dsctl/PamStack/Jumps.antt =====
-- Where a raised jump of the PAM stack lands.
use deathstr0ke.Base.{
  ℕ, suc, ◌+◌, ◌%◌, ◌^◌, ◌≤◌, ◌<◌, ◌≡◌, refl, ap, ◌∙◌, subst, inl, inr, Bool, true, false, List,
  Option, none, some, Result, ok, arith, leb, ltb, ◌==◌, length, get_elem?, if◌then◌else◌,
  Bool-cases,
}
use deathstr0ke.Text.{Text}
use deathstr0ke.Text.Numbers.{u64_max}
use deathstr0ke.Dsctl.PamStack.Places.{
  armed_rules, insert_rules-armed_rules, place_early, place_fail, place_middle, place_succ,
  place_late,
}
use deathstr0ke.Dsctl.PamStack.{
  success_jump, replace_success_jump, raise_jump, insert_rules, authfail_rule, authsucc_rule,
}
use deathstr0ke.Dsctl.PamStack.Controls.{success_jump-replace_success_jump}

-- The rule that a jump over `jump` rules lands on, from the rule at `index`.
abbrev pub target : List Text → ℕ → ℕ → Option Text
target rules index jump = get_elem? rules (suc (index + jump))

-- What a jump that skipped the rules up to `n` lands on in the new stack.
abbrev pub landing : (fail succ : ℕ) → List Text → ℕ → Option Text
landing fail succ rules n =
    if suc n == fail
    then some authfail_rule
    else if ltb n succ
    then get_elem? rules (suc n)
    else if n == succ
    then some authsucc_rule
    else get_elem? rules n

-- Where the rule at `index` stands in the stack that `insert_rules` makes, and where its new line
-- lands.
pub Landed : List Text → (fail succ index jump : ℕ) → Text → Type 0
Landed rules fail succ index jump new =
    (jump' : ℕ) × (success_jump new ≡ some jump')
    × (get_elem? (insert_rules 0 fail succ rules) (suc index) ≡ get_elem? rules index)
    × (target (insert_rules 0 fail succ rules) (suc index) jump'
        ≡ landing fail succ rules (index + jump))

wraps_not : (n : ℕ) → n ≤ u64_max → n % 2 ^ 64 ≡ n
wraps_not n h = omega (arith, h)

module _ (rules : List Text) (fail succ index jump : ℕ) (order : fail ≤ succ)
    (inside : succ < length rules) (early : index < fail) where
  raised_landing :
      (n : ℕ)
      → fail ≤ n
      → get_elem? (armed_rules rules fail succ order inside) (suc (suc (suc n)))
        ≡ landing fail succ rules n
  raised_landing n h = elim (Bool-cases (ltb n succ)) [
    | inl a ↦
        rw (not_on, a)
          (place_middle rules fail succ order inside (suc n) (omega (arith, h)) (ground arith))
    | inr a ↦ elim (Bool-cases (n == succ)) [
      | inl b ↦
          rw (not_on, a, b)
            (subst
              (λ k.
                get_elem? (armed_rules rules fail succ order inside) (suc (suc (suc k)))
                ≡ some authsucc_rule)
              (ground arith) (place_succ rules fail succ order inside))
      | inr b ↦ rw (not_on, a, b) (place_late rules fail succ order inside n (ground arith))
    ]
  ]
    where
      not_on : (suc n == fail) ≡ false
      not_on = ground arith

  kept_landing :
      (n : ℕ)
      → n < fail
      → get_elem? (armed_rules rules fail succ order inside) (suc (suc n))
        ≡ landing fail succ rules n
  kept_landing n h = elim (Bool-cases (suc n == fail)) [
    | inl e ↦ rw e (
        subst
          (λ k. get_elem? (armed_rules rules fail succ order inside) (suc k) ≡ some authfail_rule)
          (ground arith) (place_fail rules fail succ order inside))
    | inr e ↦ rw (e, below) (place_early rules fail succ order inside (suc n) (ground arith))
  ]
    where
      below : ltb n succ ≡ true
      below = ground arith

  landed :
      (new : Text) (jump' k : ℕ)
      → success_jump new ≡ some jump'
      → suc (suc index + jump') ≡ k
      → get_elem? (armed_rules rules fail succ order inside) k
        ≡ landing fail succ rules (index + jump)
      → Landed rules fail succ index jump new
  unfolding Landed
  landed new jump' k e place lands = (
    jump',
    e,
    ap (λ x. get_elem? x (suc index)) (insert_rules-armed_rules rules fail succ order inside)
        ∙ place_early rules fail succ order inside index early,
    ap (λ x. get_elem? x (suc (suc index + jump')))
          (insert_rules-armed_rules rules fail succ order inside)
        ∙ ap (λ n. get_elem? (armed_rules rules fail succ order inside) n) place
        ∙ lands,
  )

  by_reach :
      (line new : Text) (r : Bool)
      → index + jump < u64_max
      → leb fail (index + jump) ≡ r
      → success_jump line ≡ some jump
      → (if r then replace_success_jump line (jump + 1) else ok line) ≡ ok new
      → Landed rules fail succ index jump new
  by_reach line new true small r e d =
      landed new (jump + 1) (suc (suc (suc (index + jump))))
        (success_jump-replace_success_jump line (jump + 1) (omega (arith, small)) d) (omega arith)
        (raised_landing (index + jump) (ground arith))
  by_reach line new false small r e d =
      landed new jump (suc (suc (index + jump)))
        (subst (λ t. success_jump t ≡ some jump) (same d) e) (omega arith)
        (kept_landing (index + jump) (ground arith))
    where
      same : {a b : Text} → ◌≡◌ {A = Result Text} (ok a) (ok b) → a ≡ b
      same k = cc

-- Where a rule before the authfail rule jumps to, once `raise_jump` has gone over it and `insert_rules`
-- has put the module's three rules into a stack that has auth rules only, with the authsucc rule not
-- before the authfail rule. The rule stands one place further on. It lands on the module's authfail rule
-- where it landed on the old one; on the same rule as before where that is not behind the old authsucc
-- rule; on the module's authsucc rule where it landed right behind the old one; and on the rule before
-- its old target where it jumped further. The sums must fit 64 bits.
pub raise_jump_lands :
    (rules : List Text) (fail succ index jump : ℕ) (line new : Text)
    → fail ≤ succ
    → succ < length rules
    → index < fail
    → index + jump < u64_max
    → success_jump line ≡ some jump
    → raise_jump fail index line ≡ ok new
    → Landed rules fail succ index jump new
raise_jump_lands rules fail succ index jump line new order inside early small e h =
    by_reach rules fail succ index jump order inside early line new (leb fail (index + jump)) small
      refl e (opened h)
  where
    by_jump :
        raise_jump fail index line ≡ ok new
        → (if leb fail ((index + jump) % 2 ^ 64)
            then replace_success_jump line ((jump + 1) % 2 ^ 64)
            else ok line)
          ≡ ok new
    by_jump h =
        subst
          (λ o.
            (elim o [
              | none ↦ ok line
              | some j ↦
                  if leb fail ((index + j) % 2 ^ 64)
                  then replace_success_jump line ((j + 1) % 2 ^ 64)
                  else ok line
            ])
            ≡ ok new)
          e (unfold raise_jump in h)

    opened :
        raise_jump fail index line ≡ ok new
        → (if leb fail (index + jump) then replace_success_jump line (jump + 1) else ok line)
          ≡ ok new
    opened h =
        subst (λ n. (if leb fail n then replace_success_jump line (jump + 1) else ok line) ≡ ok new)
          (wraps_not (index + jump) (omega (arith, small)))
          (subst
            (λ n.
              (if leb fail ((index + jump) % 2 ^ 64) then replace_success_jump line n else ok line)
              ≡ ok new)
            (wraps_not (jump + 1) (omega (arith, small))) (by_jump h))
