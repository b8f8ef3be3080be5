-- ===== src/FilePath.antt =====
-- Paths, as `std::path` gives them to the engine on Linux. A name is a list of bytes. A `FilePath`
-- is an absolute path without `.` and `..`, the list of its names: `PathBuf` compares, orders and
-- splits such paths by their components. A path that a caller spells is its bytes, `Spelling`.
pub mod Laws
pub mod Spelled
use watchbound.Base.{
  ℕ, List, [], ◌∷◌, ◌++◌, Bool, true, false, ◌&&◌, not, Option, none, some, if◌then◌else◌, any,
  is_empty, ◌==◌,
}
use watchbound.Order.{ℕ_ord, list_ord, ◌=?◌}

abbrev pub Name : Type 0
Name = List ℕ

abbrev pub FilePath : Type 0
FilePath = List Name

abbrev pub Spelling : Type 0
Spelling = List ℕ

-- `Path::strip_prefix`: the rest of the path below `prefix`.
unfoldable pub strip_prefix : FilePath → FilePath → Option FilePath
strip_prefix path [] = some path
strip_prefix [] (name ∷ prefix) = none
strip_prefix (name' ∷ path) (name ∷ prefix) =
    let rest = strip_prefix path prefix in if name' =? name then rest else none

-- `Path::starts_with`: whole components.
unfoldable pub starts_with : FilePath → FilePath → Bool
starts_with path [] = true
starts_with [] (name ∷ prefix) = false
starts_with (name' ∷ path) (name ∷ prefix) =
    let rest = starts_with path prefix in if name' =? name then rest else false

-- `Path::parent`; none of the root directory.
unfoldable pub parent : FilePath → Option FilePath
parent [] = none
parent (name ∷ []) = some []
parent (name ∷ next ∷ path) = elim (parent (next ∷ path)) [ none ↦ none | some p ↦ some (name ∷ p) ]

-- `std::path::Component`; a Windows prefix does not occur.
pub data Component : Type 0 where
  root_dir cur_dir parent_dir : Component
  normal : Name → Component

abbrev pub slash : ℕ
slash = b'/'

abbrev pub dot : ℕ
dot = b'.'

abbrev pub add_byte : ℕ → List Name → List Name
add_byte c [] = (c ∷ []) ∷ []
add_byte c (segment ∷ segments) = (c ∷ segment) ∷ segments

-- The segments between slashes, empty ones included.
unfoldable pub split : Spelling → List Name
split [] = [] ∷ []
split (c ∷ cs) = if c == slash then [] ∷ split cs else add_byte c (split cs)

abbrev pub is_dot : Name → Bool
is_dot (c ∷ []) = c == dot
is_dot _ = false

abbrev pub is_dot_dot : Name → Bool
is_dot_dot (c ∷ d ∷ []) = c == dot && d == dot
is_dot_dot _ = false

-- Empty segments, and `.` past the beginning, are no components.
unfoldable pub classify : Bool → Name → List Component
classify first segment =
    if is_empty segment
    then []
    else if is_dot segment
    then (if first then cur_dir ∷ [] else [])
    else if is_dot_dot segment
    then parent_dir ∷ []
    else normal segment ∷ []

unfoldable pub components_of : Bool → List Name → List Component
unfolding classify
components_of first [] = []
components_of first (segment ∷ segments) = classify first segment ++ components_of false segments

unfoldable pub is_absolute : Spelling → Bool
is_absolute [] = false
is_absolute (c ∷ cs) = c == slash

-- `Path::components`.
unfoldable pub components : Spelling → List Component
unfolding split components_of is_absolute
components path =
    if is_absolute path
    then root_dir ∷ components_of false (split path)
    else components_of true (split path)

-- `PathBuf::push` of a normal component, on the bytes.
unfoldable pub push : Spelling → Name → Spelling
push path name = if is_empty path then name else path ++ (slash ∷ name)

-- The bytes of a path pushed together from names.
unfoldable pub spell_from : Spelling → List Name → Spelling
unfolding push
spell_from path [] = path
spell_from path (name ∷ names) = spell_from (push path name) names

unfoldable pub spell : List Name → Spelling
unfolding spell_from
spell names = spell_from [] names
