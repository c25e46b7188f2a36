-- ===== src/Lib.antt =====
-- deathstr0ke: a duress code for a machine with an encrypted root. Four crates work together.
--
--   ds-core     ds-core/src/lib.rs. The duress verifier (a PBKDF2 hash), the attempt policy, the counter
--               of consecutive failures, and the atomic replacement of a state file.
--   pam_ds      pam_ds/src/lib.rs. The PAM module: it fires the erase on the duress code, and counts
--               wrong passwords.
--   ds-unlock   ds-unlock/src/main.rs. The unlock prompt in the initramfs: it compares the state on the
--               ESP with the copies frozen into the initramfs, resumes an interrupted erase, and counts
--               wrong passphrases.
--   ds-erase    ds-erase/src/main.rs. The erase itself, a transaction of three phases with a journal on
--               the ESP, so that a power cut is made up for at the next boot.
--
-- dsctl (dsctl/src/main.rs) enrolls, arms and disarms all this. Of it the policy options of
-- set-duress, the registry of keyslots, the PAM stack, the HOOKS line, set_duress, enroll_recovery,
-- arm, disarm, the dead-man switch and panic_wipe are here.
--
-- The files:
--
--   Base, Text, FilePath, Files   shared: Rust's Result, lists, strings as lists of code points with the
--               methods of str that are used, numbers as texts (Text/Numbers), paths by components, and
--               files that are read whole.
--   Effects     programs on an outside state. Each system call or command meets a fate: it works, it
--               fails, it happens but reports an error (or happens by half), or the power is cut before
--               it. A program is run with a list of fates; where the list ends, everything works. Laws
--               has the rules for what holds whatever the fates are, Runs those for one run.
--   Core        ds-core: Core/Verifier, Core/Policy, Core/Attempts, Core/AtomicWrite. The function names
--               are the source's.
--   Luks        active_slot_set, the parser of luksDump, and cryptsetup as a parameter.
--   Erase       ds-erase: Erase/Journal (the record and its checks), Erase/Arguments (parse_mode),
--               Erase/Headers (the search for header backups), Erase/World (what is acted on, the
--               journal file), Erase/Transaction (run_transaction), Erase/Host (what the commands read of
--               the machine), Erase/Commands (fire, resume, run).
--   Unlock      ds-unlock: Unlock/State (files, records, wipes), Unlock/Prompts (prompt_secret,
--               luks_open), Unlock/Loop (the prompt loop of run), Unlock/Start (run up to the loop),
--               Unlock/Wipes (the command lines that do_wipe and resume_wipe give to ds-erase).
--   Pam         pam_ds: authenticate and its modes.
--   Enroll      dsctl: enrollment_policy and read_policy.
--   Dsctl       dsctl: Dsctl/Hooks (the HOOKS line of mkinitcpio.conf), Dsctl/PamStack (arm_pam_stack),
--               Dsctl/Registry (known.slots), Dsctl/System (what arm and disarm change),
--               Dsctl/Machine (what they read, and the checks on it), Dsctl/Arm, Dsctl/Disarm,
--               Dsctl/Recovery (enroll_recovery), Dsctl/Deadman (the dead-man switch),
--               Dsctl/Duress (set_duress, panic_wipe).
--   Tests       runs on small inputs with small stand-ins for the crates.
--
-- Outside the repository, and so parameters: PBKDF2 and the constant-time comparison (Crypto, with
-- IsSound), serde_json (Codec), cryptsetup (Cryptsetup, with IsFaithful for what its manual says of
-- luksKillSlot and luksErase), its other commands (Keyring), mkinitcpio (Mkinitcpio), canonicalize,
-- the random generator, the console, and the clock. What the self-test of ds-unlock answers is an
-- argument, too.
--
-- A bounded integer is a number of ℕ with its bound in the parser; the only operations that could pass
-- a bound are the source's saturating_add and the sums of the dead-man switch and the PAM jumps, which
-- wrap; both are written out. Two loops are bounded in the source and have that bound as fuel: the
-- prompts by max_prompts, the sweep by its 10000 entries; where it runs out, the model fails with the
-- source's error. The removal of the hook from a line has the line's length as fuel, and is shown
-- never to run out. Messages, pauses at the boot prompt, the scrubbing of secrets from memory, and the
-- arguments that an error message interpolates are left out.
--
-- A file is missing, unreadable or a text; where dsctl takes a snapshot of bytes that are no text, the
-- model fails at that point. The transaction acts on the one device of the model's world: the
-- journal's device is checked, but does not choose among devices.
--
-- Not modelled: the self-tests, the modes of files, the sealing of the boot image, the other commands
-- of dsctl (verify, factors, status), and the shell scripts (install.sh, ds-seal-boot.sh, mkinitcpio).
pub mod Base
pub mod Text
pub mod FilePath
pub mod Files
pub mod Effects
pub mod Core
pub mod Luks
pub mod Erase
pub mod Unlock
pub mod Pam
pub mod Dsctl
pub mod Enroll
mod Tests
