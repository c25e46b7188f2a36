-- ===== src/FilePath.antt =====
-- `std::path::Path`: components, and the tests and parts of paths that the crates use.
use deathstr0ke.Base.{
  ℕ, Bool, true, false, ◌&&◌, List, [], ◌∷◌, ◌++◌, Option, none, some, ◌==◌, if◌then◌else◌, ◌≡◌,
  refl,
}
use deathstr0ke.Text.{Text, text_eq, split, codes}
use mathlib.Core.List.{reverse}

pub data Component : Type 0 where
  root_dir cur_dir parent_dir : Component
  normal : Text → Component

unfoldable pub is_absolute : Text → Bool
is_absolute [] = false
is_absolute (c ∷ s) = c == b'/'

-- Empty parts and `.` are dropped; `..` is kept as it is.
part : Text → List Component
part s =
    if text_eq s []
    then []
    else if text_eq s (codes ".")
    then []
    else if text_eq s (codes "..")
    then parent_dir ∷ []
    else normal s ∷ []

parts : List Text → List Component
parts [] = []
parts (s ∷ ss) = part s ++ parts ss

-- A `.` is kept at the head of a relative path.
leading : List Text → List Component
leading [] = []
leading (s ∷ ss) = if text_eq s (codes ".") then cur_dir ∷ parts ss else part s ++ parts ss

unfoldable pub components : Text → List Component
unfolding is_absolute part parts leading split
components s = if is_absolute s then root_dir ∷ parts (split b'/' s) else leading (split b'/' s)

abbrev pub is_parent_dir : Component → Bool
is_parent_dir parent_dir = true
is_parent_dir _ = false

abbrev component_eq : Component → Component → Bool
component_eq root_dir root_dir = true
component_eq cur_dir cur_dir = true
component_eq parent_dir parent_dir = true
component_eq (normal s) (normal t) = text_eq s t
component_eq _ _ = false

is_prefix : List Component → List Component → Bool
is_prefix [] cs = true
is_prefix (d ∷ ds) [] = false
is_prefix (d ∷ ds) (c ∷ cs) = component_eq c d && is_prefix ds cs

-- `Path::starts_with` and `Path::ends_with` go by whole components.
unfoldable pub path_starts_with : Text → Text → Bool
unfolding components is_prefix
path_starts_with path base = is_prefix (components base) (components path)

unfoldable pub path_ends_with : Text → Text → Bool
unfolding components is_prefix
path_ends_with path tail = is_prefix (reverse (components tail)) (reverse (components path))

abbrev is_named_part : Component → Bool
is_named_part (normal s) = true
is_named_part _ = false

-- `Path::file_name`: the last component, if it is a name.
unfoldable pub file_name : Text → Option Text
unfolding components
file_name path = elim (reverse (components path)) [
  | [] ↦ none
  | c ∷ rest ↦ elim c [ root_dir ↦ none | cur_dir ↦ none | parent_dir ↦ none | normal s ↦ some s ]
]

-- `Path::parent`: the text before the last component, which only a root or an empty path lacks.
drop_while : ℕ → Text → Text
drop_while sep [] = []
drop_while sep (c ∷ s) = let rest = drop_while sep s in if c == sep then rest else c ∷ s

drop_until : ℕ → Text → Text
drop_until sep [] = []
drop_until sep (c ∷ s) = let rest = drop_until sep s in if c == sep then c ∷ s else rest

strip_last : Text → Text
unfolding drop_while drop_until
strip_last path = reverse (drop_while b'/' (drop_until b'/' (drop_while b'/' (reverse path))))

parent_of : Bool → Text → Text
parent_of true [] = codes "/"
parent_of true (c ∷ s) = c ∷ s
parent_of false s = s

unfoldable pub parent : Text → Option Text
unfolding components strip_last is_absolute parent_of
parent path = elim (reverse (components path)) [
  | [] ↦ none
  | c ∷ rest ↦ elim c [
    | root_dir ↦ none
    | cur_dir ↦ some (parent_of (is_absolute path) (strip_last path))
    | parent_dir ↦ some (parent_of (is_absolute path) (strip_last path))
    | normal s ↦ some (parent_of (is_absolute path) (strip_last path))
  ]
]

parts_of_journal :
    (parent (codes "/boot/efi/deathstroke/inprogress") ≡ some (codes "/boot/efi/deathstroke"))
    × (file_name (codes "/boot/efi/deathstroke/inprogress") ≡ some (codes "inprogress"))
    × (parent (codes "/inprogress") ≡ some (codes "/"))
    × (parent (codes "/") ≡ none)
unfolding parent file_name
parts_of_journal = (refl, refl, refl, refl)

-- `Path::join` with a relative name.
unfoldable pub join_path : Text → Text → Text
join_path [] name = name
join_path (c ∷ s) name = elim (reverse (c ∷ s)) [
  | [] ↦ name
  | last ∷ r ↦ if last == b'/' then (c ∷ s) ++ name else (c ∷ s) ++ b'/' ∷ name
]
