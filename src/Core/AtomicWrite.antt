-- ===== src/Core/AtomicWrite.antt =====
-- `atomic_write` of ds-core/src/lib.rs: the state around one path, and every step that touches it.
pub mod Crash
use deathstr0ke.Base.{
  ℕ, ◌≡◌, Bool, true, false, not, String, Option, none, some, Result, ok, err, bail_if, [],
}
use deathstr0ke.Text.{Text}
use deathstr0ke.Effects.{
  Prog, Run, done, failed, dead, Fate, ◌>>=◌, ◌>>◌, pure, fail, lift, act, act_half, query, attempt,
}

-- A regular file has its content, or a part of it that a failed write left; its mode; and whether
-- its content was synced.
pub data Entry : Type 0 where
  absent symlink : Entry
  file : Option Text → ℕ → Bool → Entry

-- `exists` follows a link, so a dangling one counts as no directory.
pub data Parent : Type 0 where
  no_parent dangling link : Parent
  directory : ℕ → Parent

pub record Place : Type 0 where
  pub parent : Parent
  pub target : Entry
  pub temp : Entry
  pub dir_synced : Bool

abbrev exists : Parent → Bool
exists no_parent = false
exists dangling = false
exists link = true
exists (directory m) = true

-- `create_dir_all` makes a directory, and refuses a name that is taken by a dangling link.
abbrev make_dir : Parent → Result (Unit {0})
make_dir dangling = err "create parent"
make_dir _ = ok tt

abbrev parent_is_symlink : Parent → Result Bool
parent_is_symlink no_parent = err "stat parent"
parent_is_symlink dangling = ok true
parent_is_symlink link = ok true
parent_is_symlink (directory m) = ok false

-- A target whose status cannot be read is passed over.
abbrev is_symlink : Entry → Bool
is_symlink symlink = true
is_symlink _ = false

abbrev is_absent : Entry → Bool
is_absent absent = true
is_absent _ = false

set_mode : ℕ → Entry → Entry
set_mode m (file c _ b) = file c m b
set_mode m e = e

set_content : Option Text → Entry → Entry
set_content c (file _ m _) = file c m false
set_content c e = e

set_synced : Entry → Entry
set_synced (file c m _) = file c m true
set_synced e = e

make_parent : Bool → Prog Place (Unit {0})
make_parent true = pure tt
make_parent false = do
  lift (λ p. make_dir p.parent)
  act "create parent" (λ p. record p { parent = directory 0o755 })
  act "chmod parent" (λ p. record p { parent = directory 0o700 })

prepare_parent : Prog Place (Unit {0})
unfolding make_parent
prepare_parent = do present ← lift (λ p. ok (exists p.parent)); make_parent present

refuse_links : Prog Place (Unit {0})
refuse_links = do
  linked ← query "stat parent" (λ p. parent_is_symlink p.parent)
  lift (λ p. bail_if linked "refusing symlink parent")
  lift (λ p. bail_if (is_symlink p.target) "refusing symlink target")

-- The closure: write the data beside the target, sync it, and rename it over the target. `masked` is
-- the mode that the process's umask leaves of `mode`.
replace : Text → ℕ → ℕ → Prog Place (Unit {0})
unfolding set_content set_synced set_mode
replace text mode masked = do
  lift (λ p. bail_if (not (is_absent p.temp)) "create temp")
  act "create temp" (λ p. record p { temp = file (some []) masked false })
  act_half "write temp" (λ p. record p { temp = set_content (some text) p.temp })
      (λ p. record p { temp = set_content none p.temp })
  act "fsync temp" (λ p. record p { temp = set_synced p.temp })
  act "chmod temp" (λ p. record p { temp = set_mode mode p.temp })
  act "rename" (λ p. record p { target = p.temp; temp = absent; dir_synced = false })
  query "open parent" (λ p. ok tt)
  act "fsync parent" (λ p. record p { dir_synced = true })

-- `let _ = fs::remove_file(&tmp)`, and the result of the closure.
conclude : Result (Unit {0}) → Prog Place (Unit {0})
conclude (ok _) = pure tt
conclude (err e) = do
  ignored ← attempt (act "remove temp" (λ p. record p { temp = absent }))
  fail e

-- `valid_name` says whether the path ends in a file name that is UTF-8.
unfoldable pub atomic_write : Bool → Text → ℕ → ℕ → Prog Place (Unit {0})
unfolding prepare_parent refuse_links replace conclude
atomic_write valid_name text mode masked = do
  prepare_parent
  refuse_links
  lift (λ p. bail_if (not valid_name) "invalid file name")
  result ← attempt (replace text mode masked)
  conclude result
