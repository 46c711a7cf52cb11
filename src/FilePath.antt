-- ===== src/FilePath.antt =====
-- What the crate uses of `std::path` on Unix: a path is its bytes, taken apart into components as
-- `Path::components` does, joined as `PathBuf::push` does; and `OsStr::to_str`.
mod Utf8
pub mod Laws
unfoldable pub use Utf8.{to_str}
use rust_commons.Prelude.{
  ℕ, Bool, true, false, Option, none, some, List, [], ◌∷◌, ◌++◌, ◌==◌, if◌then◌else◌, Str, codes,
  str_eq,
}

abbrev pub FilePath : Type 0
FilePath = Str

abbrev pub slash : ℕ
slash = b'/'

abbrev pub full_stop : ℕ
full_stop = b'.'

pub data Component : Type 0 where
  root_dir cur_dir parent_dir : Component
  normal : Str → Component

abbrev pub onto_first : ℕ → List Str → List Str
onto_first c [] = (c ∷ []) ∷ []
onto_first c (s ∷ rest) = (c ∷ s) ∷ rest

-- The pieces between the slashes.
pub split_slash : Str → List Str
split_slash [] = [] ∷ []
split_slash (c ∷ s) =
    let rest = split_slash s in if c == slash then [] ∷ rest else onto_first c rest

-- `is_absolute`, which on Unix is `has_root`
unfoldable pub is_absolute : FilePath → Bool
is_absolute [] = false
is_absolute (c ∷ s) = c == slash

-- Empty pieces and `.` inside a path are dropped.
pub component_of : Str → List Component
component_of s =
    if str_eq s []
    then []
    else if str_eq s (codes ".")
    then []
    else if str_eq s (codes "..")
    then parent_dir ∷ []
    else normal s ∷ []

pub components_of : List Str → List Component
components_of [] = []
components_of (s ∷ rest) = component_of s ++ components_of rest

-- A path with no root keeps a leading `.`.
pub first_component : List Str → List Component
unfolding components_of
first_component [] = []
first_component (s ∷ rest) =
    if str_eq s (codes ".") then cur_dir ∷ components_of rest else components_of (s ∷ rest)

pub components : FilePath → List Component
unfolding components_of first_component split_slash component_of is_absolute
components p =
    if is_absolute p
    then root_dir ∷ components_of (split_slash p)
    else first_component (split_slash p)

abbrev pub last_component : List Component → Option Component
last_component [] = none
last_component (c ∷ []) = some c
last_component (c ∷ d ∷ rest) = last_component (d ∷ rest)

abbrev pub but_last : List Component → List Component
but_last [] = []
but_last (c ∷ []) = []
but_last (c ∷ d ∷ rest) = c ∷ but_last (d ∷ rest)

abbrev pub name_in : Option Component → Option Str
name_in (some (normal s)) = some s
name_in _ = none

-- `Path::file_name`
unfoldable pub file_name : FilePath → Option Str
unfolding components
file_name p = name_in (last_component (components p))

abbrev pub component_text : Component → Str
component_text root_dir = []
component_text cur_dir = codes "."
component_text parent_dir = codes ".."
component_text (normal s) = s

pub join_components : List Component → FilePath
join_components [] = []
join_components (root_dir ∷ []) = codes "/"
join_components (c ∷ []) = component_text c
join_components (c ∷ d ∷ rest) = component_text c ++ slash ∷ join_components (d ∷ rest)

abbrev pub parent_in : List Component → Option Component → Option FilePath
parent_in cs none = none
parent_in cs (some root_dir) = none
parent_in cs (some _) = some (join_components (but_last cs))

-- `Path::parent`, up to `Path`'s equality, which compares components
unfoldable pub parent : FilePath → Option FilePath
unfolding components join_components
parent p = parent_in (components p) (last_component (components p))

-- The text before and behind the last full stop.
pub rsplit_dot : Str → Option (Str × Str)
rsplit_dot [] = none
rsplit_dot (c ∷ s) = elim (rsplit_dot s) [
  | some (before, after) ↦ some (c ∷ before, after)
  | none ↦ if c == full_stop then some ([], s) else none
]

abbrev pub extension_in : Option (Str × Str) → Option Str
extension_in none = none
extension_in (some ([], after)) = none
extension_in (some (c ∷ before, after)) = some after

abbrev pub extension_of : Option Str → Option Str
extension_of none = none
extension_of (some name) = extension_in (rsplit_dot name)

-- `Path::extension`
unfoldable pub extension : FilePath → Option Str
unfolding file_name rsplit_dot
extension p = extension_of (file_name p)

abbrev pub needs_slash : FilePath → Bool
needs_slash [] = false
needs_slash (c ∷ []) = if c == slash then false else true
needs_slash (c ∷ d ∷ rest) = needs_slash (d ∷ rest)

-- `PathBuf::push`
unfoldable pub push : FilePath → FilePath → FilePath
unfolding is_absolute
push base part =
    if is_absolute part
    then part
    else if needs_slash base
    then base ++ slash ∷ part
    else base ++ part
