-- ===== src/Erase/World/Runs.antt =====
-- What the journal's write and removal come to where nothing fails.
use deathstr0ke.Base.{◌≡◌, refl, true, false, none, []}
use deathstr0ke.Files.{text, missing, is_file}
use deathstr0ke.Effects.{done}
use deathstr0ke.Effects.Runs.{
  Comes, >>=-Comes, lift-Comes, attempt-Comes, pure-Comes, act_half-Comes,
}
use deathstr0ke.Luks.{Cryptsetup}
use deathstr0ke.Erase.Journal.{Journal}
use deathstr0ke.Erase.World.{
  Codec, World, journal_text, create_temp, replace_journal, conclude_journal, write_journal,
  sync_removal, remove_journal,
}

module _ {c : Cryptsetup} where
  pub write_journal-Comes :
      (codec : Codec) (j : Journal) (s : World c)
      → s.journal_temp ≡ none
      → Comes
          (write_journal codec j)
          s
          []
          (done tt (record s { journal = text (journal_text codec j); journal_temp = none }) [])
  unfolding write_journal replace_journal create_temp conclude_journal
  write_journal-Comes codec j s free = >>=-Comes _ (act_half-Comes _ _ _) (
      >>=-Comes _
        (attempt-Comes (
          >>=-Comes _ (lift-Comes _ {a = false} (rw free refl)) (
            >>=-Comes _ (act_half-Comes _ _ _) (
              >>=-Comes _ (act_half-Comes _ _ _) (
                >>=-Comes _ (act_half-Comes _ _ _) (
                  >>=-Comes _ (act_half-Comes _ _ _)
                    (>>=-Comes _ (act_half-Comes _ _ _) (act_half-Comes _ _ _))))))))
        (pure-Comes _))

  pub remove_journal-Comes :
      (s : World c)
      → is_file s.journal ≡ true
      → Comes remove_journal s [] (done tt (record s { journal = missing }) [])
  unfolding remove_journal sync_removal
  remove_journal-Comes s there =
      >>=-Comes _ (lift-Comes _ {a = false} (rw there refl))
        (>>=-Comes _ (act_half-Comes _ _ _) (act_half-Comes _ _ _))
