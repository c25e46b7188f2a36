-- ===== src/Unlock/Wipes.antt =====
-- The command lines that `do_wipe` and `resume_wipe` of ds-unlock/src/main.rs give to ds-erase.
pub mod Spares
use deathstr0ke.Base.{ℕ, Bool, true, false, List, [], ◌∷◌, ◌++◌}
use deathstr0ke.Text.{Text, codes}
use deathstr0ke.Text.Numbers.{decimal}
use deathstr0ke.FilePath.{join_path}
use deathstr0ke.Core.{Process, test_mode, journal_name}
use deathstr0ke.Unlock.State.{EraseRun, fire, resume}

-- A test run does not power off.
abbrev test_flag : Bool → List Text
test_flag true = codes "--test-no-poweroff" ∷ []
test_flag false = []

-- `esp` is the directory of the armed state.
unfoldable pub erase_arguments : Process → Text → EraseRun → List Text
erase_arguments p esp (fire device slot recovery_slot map) =
    codes "--fire"
    ∷ codes "--device"
    ∷ device
    ∷ codes "--mode"
    ∷ codes "killslot"
    ∷ codes "--slot"
    ∷ decimal slot
    ∷ codes "--recovery-slot"
    ∷ decimal recovery_slot
    ∷ codes "--journal"
    ∷ join_path esp journal_name
    ∷ codes "--map-name"
    ∷ map
    ∷ codes "--header-scan"
    ∷ esp
    ∷ test_flag (test_mode p)
erase_arguments p esp (resume device slot recovery_slot map) =
    codes "--resume"
    ∷ codes "--journal"
    ∷ join_path esp journal_name
    ∷ codes "--expected-device"
    ∷ device
    ∷ codes "--expected-slot"
    ∷ decimal slot
    ∷ codes "--expected-recovery-slot"
    ∷ decimal recovery_slot
    ∷ codes "--map-name"
    ∷ map
    ∷ []
