-- ===== src/Tests/DuressTests.antt =====
-- The enrollment of a duress phrase and the panic of dsctl/src/main.rs, with small stand-ins.
use deathstr0ke.Base.{◌≡◌, ◌⊎◌, ◌≤◌, refl, true, false, List, [], ◌∷◌, ok, length, arith}
use deathstr0ke.Text.{Text, Bytes, codes}
use deathstr0ke.Files.{missing, text}
use deathstr0ke.Effects.Laws.{Ends}
use deathstr0ke.Core.Verifier.{serialize}
use deathstr0ke.Dsctl.Duress.{Vault, set_duress, panic_wipe}
use deathstr0ke.Dsctl.Duress.Enrolled.{Accepts, panic_wipe_needs_phrase, set_duress_enrolls}
use deathstr0ke.Tests.Fixtures.{toy_crypto, toy_crypto-IsSound, zeros, sample_hash}
use deathstr0ke.Tests.DsctlTests.{machine}

abbrev vault : Vault
vault = record { duress_hash = text (serialize sample_hash); config = missing; fired = [] }

panic_wipe_needs_phrase_example :
    Ends
      (λ _ t.
        (true ≡ true)
        × ((code : Bytes) × (ok (codes "duress") ≡ ok code)
            × Accepts toy_crypto vault.duress_hash code))
      (λ t.
        (t ≡ vault)
        ⊎ ((true ≡ true)
            × ((code : Bytes) × (ok (codes "duress") ≡ ok code)
                × Accepts toy_crypto vault.duress_hash code)))
      (panic_wipe toy_crypto machine true (ok (codes "duress")) vault [])
panic_wipe_needs_phrase_example =
    panic_wipe_needs_phrase toy_crypto machine true (ok (codes "duress")) vault []

abbrev set_line : List Text
set_line = codes "set-duress" ∷ []

set_duress_enrolls_example :
    Ends
      (λ _ t.
        (first : Bytes) × (ok (codes "duress") ≡ ok first)
        × (6 ≤ length first)
        × Accepts toy_crypto t.duress_hash first)
      (λ t. Unit {0})
      (set_duress toy_crypto machine false set_line
        (ok (codes "duress"))
        (ok (codes "duress"))
        (ok zeros)
        vault
        [])
set_duress_enrolls_example =
    set_duress_enrolls toy_crypto toy_crypto-IsSound machine false set_line (ok (codes "duress"))
      (ok (codes "duress")) zeros vault [] refl (ground arith)
