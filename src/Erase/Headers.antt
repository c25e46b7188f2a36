-- ===== src/Erase/Headers.antt =====
-- The search for LUKS header backups of ds-erase/src/main.rs. The file system is what each path
-- names; a directory lists the full paths of its entries.
use deathstr0ke.Base.{
  ℕ, zero, suc, ◌+◌, Bool, true, false, ◌&&◌, List, [], ◌∷◌, ◌++◌, Option, none, some,
  if◌then◌else◌, Result, ok, err,
}
use deathstr0ke.Text.{Text, Bytes, text_eq}
use deathstr0ke.Effects.{Prog, ◌>>=◌, ◌>>◌, pure, fail, lift, act, query, attempt}
use mathlib.Core.List.{reverse}

-- A regular file has its bytes, or cannot be opened; a directory its entries, or cannot be listed.
pub data Node : Type 0 where
  no_node symlink_node special_node stat_error : Node
  dir_node : Option (List Text) → Node
  file_node : Option Bytes → Node

abbrev pub FileTree : Type 0
FileTree = Text → Node

abbrev pub max_scan_entries : ℕ
max_scan_entries = 10000

abbrev pub luks_magic : Bytes
luks_magic = b'L' ∷ b'U' ∷ b'K' ∷ b'S' ∷ 0xba ∷ 0xbe ∷ []

begins_with : Bytes → Bytes → Bool
begins_with [] bs = true
begins_with (m ∷ ms) [] = false
begins_with (m ∷ ms) (b ∷ bs) = text_eq (m ∷ []) (b ∷ []) && begins_with ms bs

-- `is_luks_header_file`: six bytes can be read, and they are the magic.
unfoldable pub is_luks_header_file : Option Bytes → Bool
unfolding begins_with
is_luks_header_file none = false
is_luks_header_file (some bytes) = begins_with luks_magic bytes

abbrev pub remove_node : Text → FileTree → FileTree
remove_node path tree q = if text_eq path q then no_node else tree q

abbrev is_missing : Node → Bool
is_missing no_node = true
is_missing _ = false

-- `shred -u`, and `remove_file` where that reports a failure.
unlink_if : Text → Bool → Prog FileTree (Unit {0})
unlink_if path true = fail "remove header backup"
unlink_if path false = act "remove header backup" (remove_node path)

after_shred : Text → Result (Unit {0}) → Prog FileTree (Unit {0})
unfolding unlink_if
after_shred path (ok _) = pure tt
after_shred path (err e) = do gone ← lift (λ tree. ok (is_missing (tree path))); unlink_if path gone

unfoldable pub erase_header_file : Text → Prog FileTree (Unit {0})
unfolding after_shred
erase_header_file path = do
  shredded ← attempt (act "shred" (remove_node path))
  after_shred path shredded

-- What one path adds to the stack, and how many headers it destroyed.
visit_file : Text → Bool → Prog FileTree (List Text × ℕ)
unfolding erase_header_file
visit_file path true = do erase_header_file path; pure ([], 1)
visit_file path false = pure ([], 0)

visit_node : Text → Node → Prog FileTree (List Text × ℕ)
unfolding visit_file is_luks_header_file
visit_node path no_node = pure ([], 0)
visit_node path symlink_node = pure ([], 0)
visit_node path special_node = pure ([], 0)
visit_node path stat_error = fail "stat scan path"
visit_node path (dir_node none) = fail "read scan dir"
visit_node path (dir_node (some entries)) = pure (entries, 0)
visit_node path (file_node bytes) = visit_file path (is_luks_header_file bytes)

-- `symlink_metadata` and what follows it.
visit : Text → Prog FileTree (List Text × ℕ)
unfolding visit_node
visit path = do node ← query "stat scan path" (λ tree. ok (tree path)); visit_node path node

-- The loop: the stack's top is the head of the list, and the number is that of the entries that may
-- still be visited.
sweep : ℕ → List Text → ℕ → Prog FileTree ℕ
unfolding visit
sweep budget [] destroyed = pure destroyed
sweep zero (path ∷ stack) destroyed = fail "header scan exceeds its entries"
sweep (suc budget) (path ∷ stack) destroyed = do
  found ← visit path
  sweep budget (reverse found.0 ++ stack) (destroyed + found.1)

unfoldable pub destroy_header_backups : List Text → Prog FileTree ℕ
unfolding sweep
destroy_header_backups paths = sweep max_scan_entries (reverse paths) 0
