-- ===== src/Watch.antt =====
-- config/watch.rs: which file system events matter, and the specs that say what to watch. The
-- attaching of watches is in `Attach`, and the event loop with its debounce in `Loop`.
mod Examples
mod UnitTests
pub mod Relevant
pub mod Attach
pub mod Loop
pub mod Start
use rust_commons.Prelude.{
  Bool, true, false, ◌||◌, Option, none, some, List, [], ◌∷◌, if◌then◌else◌, Str, codes, str_eq,
  starts_with, ends_with,
}
use rust_commons.FilePath.{FilePath, file_name, extension, to_str}

pub data PathFilter : Type 0 where
  basename : Str → PathFilter
  any : (extensions extra_names ignore_suffixes : List Str) → PathFilter

pub record WatchSpec : Type 0 where
  pub path : FilePath
  pub recursive : Bool
  pub filter : PathFilter

-- `and_then(|s| s.to_str())`
abbrev pub text_of : Option Str → Option Str
text_of none = none
text_of (some s) = to_str s

abbrev pub name_or_config : Option Str → Str
name_or_config (some name) = name
name_or_config none = codes "config"

-- `WatchSpec::file` and `WatchSpec::dir`
unfoldable pub file : FilePath → WatchSpec
file path = record {
  path = path;
  recursive = false;
  filter = basename (name_or_config (text_of (file_name path)));
}

unfoldable pub dir : FilePath → (recursive : Bool) → WatchSpec
dir path recursive = record { path = path; recursive = recursive; filter = any [] [] [] }

unfoldable pub is_junk_name : Str → Bool
is_junk_name name =
    starts_with name (codes ".")
    || (ends_with name (codes "~")
        || (ends_with name (codes ".swp") || ends_with name (codes ".tmp")))

-- `iter().any(|s| name.ends_with(s))` and `iter().any(|n| n == name)`
unfoldable pub any_suffix : List Str → Str → Bool
any_suffix [] name = false
any_suffix (s ∷ rest) name = ends_with name s || any_suffix rest name

unfoldable pub any_equal : List Str → Str → Bool
any_equal [] name = false
any_equal (n ∷ rest) name = str_eq n name || any_equal rest name

abbrev pub has_extension : List Str → Option Str → Bool
has_extension extensions none = false
has_extension extensions (some ext) = any_equal extensions ext

abbrev pub is_empty : List Str → Bool
is_empty [] = true
is_empty (x ∷ xs) = false

-- The `match` of `is_relevant_path`, for an event at `path` with the file name `name`.
abbrev pub passes : FilePath → Str → PathFilter → Bool
passes path name (basename want) = str_eq name want
passes path name (any extensions extra_names ignore_suffixes) =
    if any_suffix ignore_suffixes name
    then false
    else if any_equal extra_names name
    then true
    else if is_empty extensions
    then true
    else has_extension extensions (text_of (extension path))

abbrev pub named_passes : FilePath → Option Str → PathFilter → Bool
named_passes path none filter = false
named_passes path (some name) filter = if is_junk_name name then false else passes path name filter

unfoldable pub is_relevant_path : FilePath → PathFilter → Bool
is_relevant_path path filter = named_passes path (text_of (file_name path)) filter
