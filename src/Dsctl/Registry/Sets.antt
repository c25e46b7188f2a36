-- ===== src/Dsctl/Registry/Sets.antt =====
-- The registry as a set of slots.
use deathstr0ke.Base.{ℕ, ◌≡◌, refl, ◌||◌, ◌&&◌, not, List, [], ◌∷◌, arith, ==_iff}
use deathstr0ke.Luks.{insert, contains}
use deathstr0ke.Luks.Dump.{insert-contains}
use deathstr0ke.Dsctl.Registry.{difference, extend}

pub contains-extend :
    (slots news : List ℕ) (k : ℕ)
    → contains (extend slots news) k ≡ (contains news k || contains slots k)
unfolding contains extend
contains-extend slots [] k = refl
contains-extend slots (n ∷ ns) k =
    ground (arith, contains-extend (insert n slots) ns k, insert-contains n k slots)

pub contains-difference :
    (slots known : List ℕ) (k : ℕ)
    → contains (difference slots known) k ≡ (contains slots k && not (contains known k))
unfolding contains difference
contains-difference [] known k = refl
contains-difference (n ∷ ns) known k = ground (arith, contains-difference ns known k, ==_iff k n)
