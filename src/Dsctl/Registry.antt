-- ===== src/Dsctl/Registry.antt =====
-- The registry of the keyslots that dsctl enrolled, `known.slots`: dsctl/src/main.rs.
pub mod Sets
pub mod RoundTrip
use deathstr0ke.Base.{
  ℕ, Bool, true, false, not, ◌||◌, List, [], ◌∷◌, ◌++◌, Option, none, some, ◌==◌, if◌then◌else◌,
  ◌≡◌, refl,
}
use deathstr0ke.Text.{Text, codes, is_whitespace, trim}
use deathstr0ke.Text.Numbers.{u8_max, decimal, parse_uint}
use deathstr0ke.Files.{File, missing, unreadable, text, readable}
use deathstr0ke.Effects.{Prog, ◌>>=◌, ◌>>◌, pure, lift, act, query, attempt}
use deathstr0ke.Base.{Result, ok, err}
use deathstr0ke.Luks.{insert, contains}
use deathstr0ke.Dsctl.System.{Mkinitcpio, System}

unfoldable pub is_separator : ℕ → Bool
unfolding is_whitespace
is_separator c = c == b',' || is_whitespace c

-- `str::split` at every separator; empty parts are kept.
unfoldable pub tokens : Text → Text → List Text
tokens cur [] = cur ∷ []
tokens cur (c ∷ s) = elim (is_separator c) [
  | true ↦ cur ∷ tokens [] s
  | false ↦ tokens (cur ++ c ∷ []) s
]

unfoldable pub insert_number : Option ℕ → List ℕ → List ℕ
unfolding insert
insert_number none slots = slots
insert_number (some n) slots = insert n slots

-- A token that is no slot number is passed over.
unfoldable pub insert_tokens : List Text → List ℕ → List ℕ
insert_tokens [] slots = slots
insert_tokens (t ∷ ts) slots = insert_tokens ts (insert_number (parse_uint u8_max (trim t)) slots)

unfoldable pub known_of : Option Text → List ℕ
unfolding insert_tokens tokens
known_of none = []
known_of (some s) = insert_tokens (tokens [] s) []

unfoldable pub read_known_slots : File → List ℕ
unfolding known_of
read_known_slots f = known_of (readable f)

unfoldable pub numbers_text : List ℕ → Text
unfolding decimal
numbers_text [] = []
numbers_text (n ∷ []) = decimal n
numbers_text (n ∷ m ∷ ms) = decimal n ++ b',' ∷ numbers_text (m ∷ ms)

unfoldable pub known_text : List ℕ → Text
unfolding numbers_text
known_text slots = numbers_text slots ++ b'\n' ∷ []

-- The union of two sets, and the elements of the first that the second lacks.
unfoldable pub extend : List ℕ → List ℕ → List ℕ
unfolding insert
extend slots [] = slots
extend slots (n ∷ ns) = extend (insert n slots) ns

unfoldable pub difference : List ℕ → List ℕ → List ℕ
unfolding contains
difference [] known = []
difference (n ∷ ns) known =
    let rest = difference ns known in if contains known n then rest else n ∷ rest

module _ {m : Mkinitcpio} where
  unfoldable pub write_known_slots : List ℕ → Prog (System m) (Unit {0})
  unfolding known_text
  write_known_slots slots = do
    query "create state dir" (λ (s : System m). ok tt)
    act "write known.slots" (λ (s : System m). record s { known_slots = text (known_text slots) })

  unfoldable pub add_known_slots : List ℕ → Prog (System m) (Unit {0})
  unfolding write_known_slots read_known_slots extend
  add_known_slots [] = pure tt
  add_known_slots (n ∷ ns) = do
    known ← lift (λ (s : System m). ok (read_known_slots s.known_slots))
    write_known_slots (extend known (n ∷ ns))

  -- `op` enrolls a slot; `slots_before` and `slots_after` are what `active_keyslots` answers around it.
  unfoldable pub record_added_slots :
      Result (List ℕ) → Result (List ℕ) → Prog (System m) (Unit {0}) → Prog (System m) (Unit {0})
  unfolding add_known_slots difference
  record_added_slots slots_before slots_after op = do
    op
    elim slots_after [
      | ok after ↦
          add_known_slots (difference after (elim slots_before [ ok before ↦ before | err e ↦ [] ]))
      | err e ↦ pure tt
    ]

registry_test :
    (read_known_slots (text (known_text (0 ∷ 1 ∷ 12 ∷ []))) ≡ 0 ∷ 1 ∷ 12 ∷ [])
    × (difference (0 ∷ 1 ∷ 2 ∷ 3 ∷ []) (0 ∷ 1 ∷ 2 ∷ []) ≡ 3 ∷ [])
unfolding read_known_slots known_text difference tokens is_separator insert_tokens insert_number
    parse_uint trim is_whitespace
registry_test = (refl, refl)
