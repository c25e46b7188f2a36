-- ===== src/Tests/DeadmanTests.antt =====
-- The dead-man switch of dsctl/src/main.rs on small inputs, and on a window that is too large.
use deathstr0ke.Base.{◌^◌, ◌≡◌, refl, true, List, [], ◌∷◌, some, arith}
use deathstr0ke.Text.{codes, trim, is_whitespace}
use deathstr0ke.Files.{text}
use deathstr0ke.Effects.{done}
use deathstr0ke.Erase.Host.{configured_target}
use deathstr0ke.Dsctl.Deadman.{Watch, deadman_text, window_of, overdue, deadman_check}
use deathstr0ke.Dsctl.Deadman.Window.{
  Event, checks_in, timer, all_happen, deadman_spares, deadman_fires,
}
use deathstr0ke.Tests.DsctlTests.{machine}

abbrev watched : Watch
watched = record { deadman_state = text (deadman_text 3600 1000); fired = [] }

abbrev events : List Event
events = timer 1500 ∷ checks_in 4000 ∷ timer 7600 ∷ []

deadman_spares_example : (all_happen machine events watched).fired ≡ []
deadman_spares_example =
    deadman_spares machine 3600 1000 events watched refl (ground arith) refl
      (ground arith, (ground arith, (ground arith, tt)))

deadman_fires_example :
    deadman_check machine 4601 watched []
    ≡ done 2 (record watched { fired = codes "/dev/sda2" ∷ [] }) []
deadman_fires_example =
    deadman_fires machine 3600 1000 4601 (codes "/dev/sda2") watched (ground arith) (ground arith)
      target refl
  where
    target : configured_target (some (codes "/dev/sda2\n")) ≡ some (codes "/dev/sda2")
    target = unfold configured_target trim is_whitespace in refl

-- 5124095576030431 hours, and 2 ^ 60 hours: the deadline has passed a second later.
wrapped :
    (overdue 1700000001 (some (window_of 5124095576030431, 1700000000)) ≡ true)
    × (overdue 1700000001 (some (window_of (2 ^ 60), 1700000000)) ≡ true)
unfolding overdue window_of
wrapped = (refl, refl)
