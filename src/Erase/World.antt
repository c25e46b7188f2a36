-- ===== src/Erase/World.antt =====
-- What ds-erase/src/main.rs acts on: the LUKS device, the journal file with its temporary file, the
-- tree that holds header backups, and the running system.
pub mod Quiet
pub mod Runs
use deathstr0ke.Base.{
  ℕ, Bool, true, false, not, List, [], ◌∷◌, ◌++◌, Option, none, some, Result, ok, err, ◌≡◌, String,
  if◌then◌else◌,
}
use deathstr0ke.Text.{Text, codes, text_eq}
use deathstr0ke.Files.{File, missing, unreadable, text, is_file}
use deathstr0ke.Effects.{Prog, ◌>>=◌, ◌>>◌, pure, fail, lift, act, attempt, query}
use deathstr0ke.Luks.{Cryptsetup}
use deathstr0ke.Erase.Journal.{Journal}
use deathstr0ke.Erase.Headers.{FileTree}

-- `serde_json` for a `Journal`.
pub record Codec : Type 0 where
  pub to_vec : Journal → Text
  pub from_slice : Text → Result Journal

-- What is written with a newline behind it is read back.
pub record IsLossless (codec : Codec) : Type 0 where
  pub from_slice-to_vec : (j : Journal) → codec.from_slice (codec.to_vec j ++ b'\n' ∷ []) ≡ ok j

module _ (c : Cryptsetup) where
  pub record World : Type 0 where
    pub device : c.Device
    pub journal : File
    pub journal_temp : Option Text
    pub tree : FileTree
    pub links : Option (List Text)
    pub links_down : List Text
    pub networking_off : Bool
    pub seat_terminated : Bool
    pub mapping_closed : Bool
    pub poweroff_requested : Bool

abbrev pub journal_text : Codec → Journal → Text
journal_text codec j = codec.to_vec j ++ b'\n' ∷ []

module _ {c : Cryptsetup} where
  abbrev has_temp : World c → Bool
  has_temp s = elim (s.journal_temp) [ none ↦ false | some t ↦ true ]

  create_temp : Bool → Prog (World c) (Unit {0})
  create_temp true = fail "create journal temp"
  create_temp false =
      act "create journal temp" (λ (s : World c). record s { journal_temp = some [] })

  conclude_journal : Result (Unit {0}) → Prog (World c) (Unit {0})
  conclude_journal (ok _) = pure tt
  conclude_journal (err e) = do
    ignored ← attempt (act "remove temp" (λ (s : World c). record s { journal_temp = none }))
    fail e

module _ {c : Cryptsetup} (codec : Codec) where
  -- The closure of `write_journal`: the new journal beside the old one, synced and renamed over it.
  replace_journal : Journal → Prog (World c) (Unit {0})
  unfolding create_temp
  replace_journal j = do
    present ← lift (λ (s : World c). ok (has_temp s))
    create_temp present
    act "write journal" (λ (s : World c). record s { journal_temp = some (codec.to_vec j) })
    act "finish journal" (λ (s : World c). record s { journal_temp = some (journal_text codec j) })
    act "fsync journal" (λ (s : World c). s)
    act "rename journal"
        (λ (s : World c). record s { journal = text (journal_text codec j); journal_temp = none })
    act "fsync journal directory" (λ (s : World c). s)

  unfoldable pub write_journal : Journal → Prog (World c) (Unit {0})
  unfolding replace_journal conclude_journal
  write_journal j = do
    act "create journal dir" (λ (s : World c). s)
    result ← attempt (replace_journal j)
    conclude_journal result

module _ {c : Cryptsetup} where
  -- A journal that is gone already is no error.
  sync_removal : Bool → Prog (World c) (Unit {0})
  sync_removal true = pure tt
  sync_removal false = do
    act "remove journal" (λ (s : World c). record s { journal = missing })
    act "fsync journal directory" (λ (s : World c). s)

  unfoldable pub remove_journal : Prog (World c) (Unit {0})
  unfolding sync_removal
  remove_journal = do gone ← lift (λ (s : World c). ok (not (is_file s.journal))); sync_removal gone
