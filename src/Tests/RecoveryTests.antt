-- ===== src/Tests/RecoveryTests.antt =====
-- The enrollment of a recovery slot, dsctl/src/main.rs, on a small device.
use deathstr0ke.Base.{◌≡◌, ◌⊎◌, refl, Bool, true, false, List, [], ◌∷◌, ◌==◌, if◌then◌else◌}
use deathstr0ke.Text.{Text, codes, text_eq}
use deathstr0ke.Files.{missing}
use deathstr0ke.Effects.{done, final, ◌>>=◌, pure, query, lift, act_half}
use deathstr0ke.Effects.Laws.{Ends}
use deathstr0ke.Luks.{contains}
use deathstr0ke.Dsctl.Registry.{difference}
use deathstr0ke.Dsctl.Machine.{is_empty}
use deathstr0ke.Dsctl.Recovery.{
  Keyring, Records, enroll_recovery, listed, slots_of, match_slots, only, same_slots, list_keyslots,
  matching_keyslots, record_slots, add_recovery,
}
use deathstr0ke.Dsctl.Recovery.Recorded.{
  Enrolled, VerifiedKeys, Unrecorded, enroll_recovery_verifies,
}
use mathlib.Core.List.{flat_map}
use deathstr0ke.Tests.DsctlTests.{machine}

-- A device whose second slot is free until a key is added.
abbrev toy_keyring : Keyring
toy_keyring = record {
  Device = Bool;
  luks_dump = λ added. if added then codes "0: luks2\n1: luks2\n" else codes "0: luks2\n";
  opens = λ added keyfile n.
      if n == 0 then text_eq keyfile (codes "/old") else text_eq keyfile (codes "/new");
  luks_add_key = λ existing newkey added. true;
}

abbrev blank : Records toy_keyring
blank = record {
  device = false;
  recovery_device = missing;
  target_device = missing;
  daily_slot = missing;
  recovery_slot = missing;
  known_slots = missing;
}

abbrev enroll_line : List Text
enroll_line =
    codes "enroll-recovery"
    ∷ codes "--device"
    ∷ codes "/dev/sda2"
    ∷ codes "--existing-keyfile"
    ∷ codes "/old"
    ∷ codes "--new-keyfile"
    ∷ codes "/new"
    ∷ []

enroll_recovery_verifies_example :
    Ends
      (λ _ t. Enrolled enroll_line blank t)
      (λ t. Unrecorded blank t ⊎ VerifiedKeys enroll_line blank)
      (enroll_recovery machine false (λ path. true) enroll_line blank [])
enroll_recovery_verifies_example =
    enroll_recovery_verifies machine false (λ path. true) enroll_line blank []

-- The run of this enrollment returns.
enrolled :
    enroll_recovery machine false (λ path. true) enroll_line blank []
    ≡ done tt (final (enroll_recovery machine false (λ path. true) enroll_line blank [])) []
unfolding enroll_recovery ◌>>=◌ pure query lift act_half flat_map listed slots_of match_slots only
    same_slots list_keyslots matching_keyslots record_slots add_recovery is_empty contains
    difference
enrolled = refl
