-- ===== src/Core/AtomicWrite/Crash.antt =====
-- What `atomic_write` leaves at the target when it returns, fails or is cut off.
use deathstr0ke.Base.{
  ℕ, ◌≡◌, ◌⊎◌, inl, inr, refl, arith, Bool, true, false, some, Result, ok, err, List, [],
}
use deathstr0ke.Text.{Text}
use deathstr0ke.Effects.{Fate}
use deathstr0ke.Effects.Laws.{
  Triple, Ends, >>=-Triple, lift-Triple, query-Triple, act_half-Triple, attempt-Triple, pure-Triple,
  fail-Triple, Caught,
}
use deathstr0ke.Core.AtomicWrite.{
  Entry, absent, file, Place, atomic_write, replace, prepare_parent, make_parent, refuse_links,
  conclude, set_mode, set_content, set_synced,
}

module _ (old : Entry) (text : Text) (mode masked : ℕ) where
  -- The target is as it was, or holds the whole of the data, synced, under its mode.
  abbrev pub Whole : Place → Type 0
  Whole p = (p.target ≡ old) ⊎ (p.target ≡ file (some text) mode true)

  abbrev Same : Place → Type 0
  Same p = p.target ≡ old

  abbrev Untouched : Entry → Place → Type 0
  Untouched t p = (p.target ≡ old) × (p.temp ≡ t)

  abbrev Renamed : Place → Type 0
  Renamed p = (p.target ≡ file (some text) mode true) × (p.temp ≡ absent)

  abbrev pub Done : Place → Type 0
  Done p = (p.target ≡ file (some text) mode true) × (p.temp ≡ absent) × (p.dir_synced ≡ true)

  replace-Triple : Triple Same (replace text mode masked) (λ _. Done) Whole
  unfolding replace set_mode set_content set_synced
  replace-Triple =
      >>=-Triple (λ _. Untouched absent) (lift-Triple (λ s a h e. ground arith) (λ s h. inl h))
        λ _.
          >>=-Triple (λ _. Untouched (file (some []) masked false))
            (act_half-Triple _ _ _ (λ s h. (h.0, refl)) (λ s h. inl h.0) (λ s h. inl h.0))
            λ _.
              >>=-Triple (λ _. Untouched (file (some text) masked false))
                (act_half-Triple _ _ _ (λ s h. ground arith) (λ s h. inl h.0) (λ s h. inl h.0))
                λ _.
                  >>=-Triple (λ _. Untouched (file (some text) masked true))
                    (act_half-Triple _ _ _ (λ s h. ground arith) (λ s h. inl h.0) (λ s h. inl h.0))
                    λ _.
                      >>=-Triple (λ _. Untouched (file (some text) mode true))
                        (act_half-Triple _ _ _ (λ s h. ground arith) (λ s h. inl h.0)
                          (λ s h. inl h.0))
                        λ _.
                          >>=-Triple (λ _. Renamed)
                            (act_half-Triple _ _ _ (λ s h. (h.1, refl)) (λ s h. inl h.0)
                              (λ s h. inr h.1))
                            λ _.
                              >>=-Triple (λ _. Renamed)
                                (query-Triple _ (λ s a h e. h) (λ s h. inr h.0))
                                λ _.
                                  act_half-Triple _ _ _ (λ s h. (h.0, h.1, refl)) (λ s h. inr h.0)
                                    (λ s h. inr h.0)

  conclude-Triple :
      (r : Result (Unit {0})) → Triple (Caught (λ _. Done) Whole r) (conclude r) (λ _. Done) Whole
  unfolding conclude
  conclude-Triple (ok u) = pure-Triple _ (λ s h. h)
  conclude-Triple (err e) =
      >>=-Triple (Caught (λ _. Whole) Whole)
        (attempt-Triple (act_half-Triple _ _ _ (λ s h. h) (λ s h. h) (λ s h. h)))
        λ r. fail-Triple e (caught_whole r)
    where
      caught_whole : (r : Result (Unit {0})) (p : Place) → Caught (λ _. Whole) Whole r p → Whole p
      caught_whole (ok u) p h = h
      caught_whole (err y) p h = h

  make_parent-Triple : (b : Bool) → Triple Same (make_parent b) (λ _. Same) Whole
  unfolding make_parent
  make_parent-Triple true = pure-Triple _ (λ s h. h)
  make_parent-Triple false =
      >>=-Triple (λ _. Same) (lift-Triple (λ s a h e. h) (λ s h. inl h))
        λ _.
          >>=-Triple (λ _. Same) (act_half-Triple _ _ _ (λ s h. h) (λ s h. inl h) (λ s h. inl h))
            λ _. act_half-Triple _ _ _ (λ s h. h) (λ s h. inl h) (λ s h. inl h)

  prepare_parent-Triple : Triple Same prepare_parent (λ _. Same) Whole
  unfolding prepare_parent
  prepare_parent-Triple =
      >>=-Triple (λ _. Same) (lift-Triple (λ s a h e. h) (λ s h. inl h)) make_parent-Triple

  refuse_links-Triple : Triple Same refuse_links (λ _. Same) Whole
  unfolding refuse_links
  refuse_links-Triple =
      >>=-Triple (λ _. Same) (query-Triple _ (λ s a h e. h) (λ s h. inl h))
        λ linked.
          >>=-Triple (λ _. Same) (lift-Triple (λ s a h e. h) (λ s h. inl h))
            λ _. lift-Triple (λ s a h e. h) (λ s h. inl h)

  atomic_write-Triple :
      (valid_name : Bool) → Triple Same (atomic_write valid_name text mode masked) (λ _. Done) Whole
  unfolding atomic_write
  atomic_write-Triple valid_name =
      >>=-Triple (λ _. Same) prepare_parent-Triple
        λ _.
          >>=-Triple (λ _. Same) refuse_links-Triple
            λ _.
              >>=-Triple (λ _. Same) (lift-Triple (λ s a h e. h) (λ s h. inl h))
                λ _.
                  >>=-Triple (Caught (λ _. Done) Whole) (attempt-Triple replace-Triple)
                    conclude-Triple

-- Whatever fails, and wherever the power is cut, the target holds what it held before or the whole
-- of the new data, synced before it was renamed and under the mode asked for. If the write returns
-- success, the target holds the new data, no temporary file is left and the directory is synced.
pub atomic_write-Whole :
    (valid_name : Bool) (text : Text) (mode masked : ℕ) (p : Place) (w : List Fate)
    → Ends
        (λ _. Done p.target text mode masked)
        (Whole p.target text mode masked)
        (atomic_write valid_name text mode masked p w)
atomic_write-Whole valid_name text mode masked p w =
    (atomic_write-Triple p.target text mode masked valid_name).run p w refl
