-- ===== src/Dsctl/PamStack/Places.antt =====
-- Where the rules of a PAM stack stand once the module's three rules are among them.
use deathstr0ke.Base.{
  ℕ, zero, suc, ◌≤◌, ◌<◌, ◌≡◌, refl, ap, ◌∙◌, true, List, [], ◌∷◌, some, arith, leb, length,
  get_elem?,
}
use deathstr0ke.Text.{Text}
use deathstr0ke.Dsctl.PamStack.{insert_at, insert_rules, preauth_rule, authfail_rule, authsucc_rule}

insert_at-before :
    (n k : ℕ) (new : Text) (ls : List Text)
    → k < n
    → n ≤ length ls
    → get_elem? (insert_at n new ls) k ≡ get_elem? ls k
unfolding insert_at
insert_at-before zero k new ls h b = ground arith
insert_at-before (suc n) k new [] h b = ground arith
insert_at-before (suc n) zero new (l ∷ ls) h b = refl
insert_at-before (suc n) (suc k) new (l ∷ ls) h b =
    insert_at-before n k new ls (omega (arith, h)) (omega (arith, b))

insert_at-behind :
    (n k : ℕ) (new : Text) (ls : List Text)
    → n ≤ k
    → get_elem? (insert_at n new ls) (suc k) ≡ get_elem? ls k
unfolding insert_at
insert_at-behind zero k new ls h = refl
insert_at-behind (suc n) k new [] h = refl
insert_at-behind (suc n) zero new (l ∷ ls) h = ground arith
insert_at-behind (suc n) (suc k) new (l ∷ ls) h = insert_at-behind n k new ls (omega (arith, h))

insert_at-here :
    (n : ℕ) (new : Text) (ls : List Text)
    → n ≤ length ls
    → get_elem? (insert_at n new ls) n ≡ some new
unfolding insert_at
insert_at-here zero new ls h = refl
insert_at-here (suc n) new [] h = ground arith
insert_at-here (suc n) new (l ∷ ls) h = insert_at-here n new ls (omega (arith, h))

length-insert_at :
    (n : ℕ) (new : Text) (ls : List Text) → length (insert_at n new ls) ≡ suc (length ls)
unfolding insert_at
length-insert_at zero new ls = refl
length-insert_at (suc n) new [] = refl
length-insert_at (suc n) new (l ∷ ls) = ap suc (length-insert_at n new ls)

-- Where the rules of a stack of auth rules stand once the three rules of the module are among them.
module _ (rules : List Text) (fail succ : ℕ) (order : fail ≤ succ)
    (inside : succ < length rules) where
  pub armed_rules : List Text
  armed_rules =
      preauth_rule ∷ insert_at (suc (suc succ)) authsucc_rule (insert_at fail authfail_rule rules)

  pub insert_rules-armed_rules : insert_rules 0 fail succ rules ≡ armed_rules
  unfolding insert_rules insert_at armed_rules
  insert_rules-armed_rules = rw at_least refl
    where
      at_least : leb fail succ ≡ true
      at_least = ground arith

  not_last : suc (suc succ) ≤ length (insert_at fail authfail_rule rules)
  not_last = omega (arith, inside, length-insert_at fail authfail_rule rules)

  pub place_early : (k : ℕ) → k < fail → get_elem? armed_rules (suc k) ≡ get_elem? rules k
  unfolding armed_rules
  place_early k h =
      insert_at-before (suc (suc succ)) k authsucc_rule (insert_at fail authfail_rule rules)
        (omega (arith, h, order)) not_last
      ∙ insert_at-before fail k authfail_rule rules h (omega (arith, order, inside))

  pub place_fail : get_elem? armed_rules (suc fail) ≡ some authfail_rule
  unfolding armed_rules
  place_fail =
      insert_at-before (suc (suc succ)) fail authsucc_rule (insert_at fail authfail_rule rules)
        (omega (arith, order)) not_last
      ∙ insert_at-here fail authfail_rule rules (omega (arith, order, inside))

  pub place_middle :
      (k : ℕ) → fail ≤ k → k ≤ succ → get_elem? armed_rules (suc (suc k)) ≡ get_elem? rules k
  unfolding armed_rules
  place_middle k h b =
      insert_at-before (suc (suc succ)) (suc k) authsucc_rule (insert_at fail authfail_rule rules)
        (omega (arith, b)) not_last
      ∙ insert_at-behind fail k authfail_rule rules h

  pub place_succ : get_elem? armed_rules (suc (suc (suc succ))) ≡ some authsucc_rule
  unfolding armed_rules
  place_succ =
      insert_at-here (suc (suc succ)) authsucc_rule (insert_at fail authfail_rule rules) not_last

  pub place_late :
      (k : ℕ) → succ < k → get_elem? armed_rules (suc (suc (suc k))) ≡ get_elem? rules k
  unfolding armed_rules
  place_late k h =
      insert_at-behind (suc (suc succ)) (suc k) authsucc_rule (insert_at fail authfail_rule rules)
        (omega (arith, h))
      ∙ insert_at-behind fail k authfail_rule rules (omega (arith, h, order))
