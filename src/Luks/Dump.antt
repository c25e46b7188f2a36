-- ===== src/Luks/Dump.antt =====
-- What the slots of a dump are: `active_slot_set` against its lines, in their order.
use deathstr0ke.Base.{
  ℕ, ◌≡◌, refl, ◌∙◌, Bool, false, ◌||◌, List, [], ◌∷◌, Option, none, some, ◌==◌, any, arith,
}
use deathstr0ke.Text.{Text}
use deathstr0ke.Text.Lines.{lines}
use deathstr0ke.Luks.{insert, contains, insert_some, collect_slots, slots_of_dump, line_slot}

pub insert-contains : (n m : ℕ) (ms : List ℕ) → contains (insert n ms) m ≡ (m == n || contains ms m)
unfolding insert contains
insert-contains n m [] = refl
insert-contains n m (k ∷ ms) = let later = insert-contains n m ms in ground arith

-- Whether a line names the slot.
abbrev pub names_slot : ℕ → Option ℕ → Bool
names_slot m none = false
names_slot m (some n) = m == n

insert_some-contains :
    (o : Option ℕ) (m : ℕ) (ms : List ℕ)
    → contains (insert_some o ms) m ≡ (names_slot m o || contains ms m)
unfolding insert_some
insert_some-contains none m ms = refl
insert_some-contains (some n) m ms = insert-contains n m ms

collect_slots-contains :
    (ls : List Text) (m : ℕ) (ms : List ℕ)
    → contains (collect_slots ls ms) m ≡ (any (λ l. names_slot m (line_slot l)) ls || contains ms m)
unfolding collect_slots
collect_slots-contains [] m ms = refl
collect_slots-contains (l ∷ ls) m ms =
    let later = collect_slots-contains ls m (insert_some (line_slot l) ms) in
    let here = insert_some-contains (line_slot l) m ms in ground arith

or_false : (b : Bool) → (b || false) ≡ b
or_false b = ground arith

-- A slot counts as active exactly if some line of the dump names it, wherever it stands and however
-- often.
pub slots_of_dump-any :
    (dump : Text) (m : ℕ)
    → contains (slots_of_dump dump) m ≡ any (λ l. names_slot m (line_slot l)) (lines dump)
unfolding slots_of_dump contains
slots_of_dump-any dump m =
    collect_slots-contains (lines dump) m []
    ∙ or_false (any (λ l. names_slot m (line_slot l)) (lines dump))
