-- ===== src/Core.antt =====
-- ds-core/src/lib.rs: the constants, the build's test switch and the state directory. The children
-- model the verifier, the policy, the attempt counter and the atomic write.
pub mod Verifier
pub mod Policy
pub mod AtomicWrite
pub mod Attempts
use deathstr0ke.Base.{
  Bool, true, false, ◌&&◌, not, String, Option, none, some, if◌then◌else◌, any, ◌++◌,
}
use deathstr0ke.Text.{Text, codes, text_eq}
use deathstr0ke.FilePath.{is_absolute, path_starts_with, components, is_parent_dir}

abbrev pub config_dir : Text
config_dir = codes "/etc/arxos/deathstroke"

abbrev pub default_state_dir : Text
default_state_dir = codes "/var/lib/arxos/deathstroke"

abbrev pub journal_name : Text
journal_name = codes "inprogress"

-- `cfg!(debug_assertions)` and the environment variables of the process.
pub record Process : Type 0 where
  pub debug_assertions : Bool
  pub var : String → Option Text

abbrev is_one : Option Text → Bool
is_one none = false
is_one (some v) = text_eq v (codes "1")

unfoldable pub test_mode : Process → Bool
test_mode p = p.debug_assertions && is_one (p.var "DS_TEST_MODE")

-- The override is taken only if it is absolute, below /tmp and free of `..`.
override_allowed : Text → Bool
override_allowed path =
    is_absolute path
    && path_starts_with path (codes "/tmp")
    && not (any is_parent_dir (components path))

choose_dir : Option Text → Text
choose_dir none = default_state_dir
choose_dir (some path) = if override_allowed path then path else default_state_dir

unfoldable pub state_dir : Process → Text
unfolding test_mode choose_dir override_allowed
state_dir p = if test_mode p then choose_dir (p.var "DS_STATE_DIR") else default_state_dir
