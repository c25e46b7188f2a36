-- ===== src/Erase/World/Quiet.antt =====
-- Writing and removing the journal leave the device alone.
use deathstr0ke.Base.{Bool, true, false, not, Result, ok, err, ◌≡◌, refl}
use deathstr0ke.Files.{File, missing, unreadable, text, is_file}
use deathstr0ke.Effects.Laws.{
  Triple, Keeps, pure-Keeps, fail-Keeps, >>=-Keeps, lift-Keeps, act-Keeps, attempt-Keeps,
  >>=-Triple, pure-Triple, lift-Triple, act_half-Triple,
}
use deathstr0ke.Luks.{Cryptsetup}
use deathstr0ke.Erase.Journal.{Journal}
use deathstr0ke.Erase.World.{
  World, Codec, create_temp, conclude_journal, replace_journal, write_journal, sync_removal,
  remove_journal,
}

module _ {c : Cryptsetup} (Q : c.Device → Type 0) where
  abbrev On : World c → Type 0
  On s = Q s.device

  create_temp-Keeps : (b : Bool) → Keeps On (create_temp b)
  unfolding create_temp
  create_temp-Keeps true = fail-Keeps _
  create_temp-Keeps false = act-Keeps _ _ λ s h. h

  conclude_journal-Keeps : (r : Result (Unit {0})) → Keeps On (conclude_journal r)
  unfolding conclude_journal
  conclude_journal-Keeps (ok u) = pure-Keeps _
  conclude_journal-Keeps (err e) =
      >>=-Keeps (attempt-Keeps (act-Keeps _ _ λ s h. h)) λ _. fail-Keeps _

  replace_journal-Keeps : (codec : Codec) (j : Journal) → Keeps On (replace_journal codec j)
  unfolding replace_journal
  replace_journal-Keeps codec j = >>=-Keeps (lift-Keeps _) λ present.
      >>=-Keeps (create_temp-Keeps present) λ _. >>=-Keeps (act-Keeps _ _ λ s h. h) λ _.
        >>=-Keeps (act-Keeps _ _ λ s h. h) λ _.
          >>=-Keeps (act-Keeps _ _ λ s h. h)
            λ _. >>=-Keeps (act-Keeps _ _ λ s h. h) λ _. act-Keeps _ _ λ s h. h

  pub write_journal-Keeps : (codec : Codec) (j : Journal) → Keeps On (write_journal codec j)
  unfolding write_journal
  write_journal-Keeps codec j =
      >>=-Keeps (act-Keeps _ _ λ s h. h)
        λ _. >>=-Keeps (attempt-Keeps (replace_journal-Keeps codec j)) conclude_journal-Keeps

  sync_removal-Keeps : (b : Bool) → Keeps On (sync_removal b)
  unfolding sync_removal
  sync_removal-Keeps true = pure-Keeps _
  sync_removal-Keeps false = >>=-Keeps (act-Keeps _ _ λ s h. h) λ _. act-Keeps _ _ λ s h. h

  pub remove_journal-Keeps : Keeps On remove_journal
  unfolding remove_journal
  remove_journal-Keeps = >>=-Keeps (lift-Keeps _) sync_removal-Keeps

-- Whatever does not speak of the journal holds behind its removal, and no journal is left.
module _ {c : Cryptsetup} (P : World c → Type 0)
    (drop : (s : World c) → P s → P (record s { journal = missing })) where
  abbrev Gone : World c → Type 0
  Gone s = P s × (s.journal ≡ missing)

  abbrev Listed : Bool → World c → Type 0
  Listed gone s = P s × (not (is_file s.journal) ≡ gone)

  missing_of_gone : (f : File) → not (is_file f) ≡ true → f ≡ missing
  missing_of_gone missing e = refl
  missing_of_gone unreadable e = cc
  missing_of_gone (text t) e = cc

  sync_removal-Triple : (b : Bool) → Triple (Listed b) (sync_removal b) (λ _. Gone) P
  unfolding sync_removal
  sync_removal-Triple true = pure-Triple _ (λ s h. (h.0, missing_of_gone s.journal h.1))
  sync_removal-Triple false =
      >>=-Triple (λ _. Gone)
        (act_half-Triple _ _ _ (λ s h. (drop s h.0, refl)) (λ s h. h.0) (λ s h. drop s h.0))
        λ _. act_half-Triple _ _ _ (λ s h. h) (λ s h. h.0) (λ s h. h.0)

  pub remove_journal-Triple : Triple P remove_journal (λ _. Gone) P
  unfolding remove_journal
  remove_journal-Triple =
      >>=-Triple Listed (lift-Triple (λ s a h e. (h, cc)) (λ s h. h)) sync_removal-Triple
