-- ===== src/DataDir.antt =====
-- datadir.rs: the data root, resolved from the environment, and the paths below it.
pub mod Resolve
mod Examples
mod UnitTests
pub mod Paths
use rust_commons.Prelude.{
  Bool, true, false, Option, none, some, List, [], ◌∷◌, ◌++◌, if◌then◌else◌, Str, codes, str_eq,
}
use rust_commons.FilePath.{FilePath, is_absolute, push, to_str}

-- `ENV_DATA_DIR`, `ENV_BIGFRED_DATA_DIR` and `DEFAULT_ROOT`
abbrev pub env_data_dir : Str
env_data_dir = codes "DATA_DIR"

abbrev pub env_bigfred_data_dir : Str
env_bigfred_data_dir = codes "BIGFRED_DATA_DIR"

abbrev pub default_root : FilePath
default_root = codes "/data"

pub data EnvPolicy : Type 0 where
  data_dir_only bigfred_then_data_dir : EnvPolicy

pub data PathRule : Type 0 where
  absolute_only accept_any : PathRule

-- The environment of the process: `std::env::var_os` and `set_var`.
abbrev pub Env : Type 0
Env = Str → Option Str

abbrev pub set_var : Str → Str → Env → Env
set_var name value env n = if str_eq name n then some value else env n

pub record DataDir : Type 0 where
  pub root : FilePath

abbrev pub accept_absolute : Option Str → Option FilePath
accept_absolute none = none
accept_absolute (some []) = none
accept_absolute (some (c ∷ v)) = if is_absolute (c ∷ v) then some (c ∷ v) else none

-- `std::env::var(name).ok()`: a value that is not valid UTF-8 is an error.
abbrev pub accept_text : Option Str → Option FilePath
accept_text none = none
accept_text (some v) = to_str v

unfoldable pub from_env : (name : Str) → PathRule → Env → Option FilePath
from_env name absolute_only env = accept_absolute (env name)
from_env name accept_any env = accept_text (env name)

abbrev pub or_else : {A : Type 0} → Option A → A → A
or_else (some a) b = a
or_else none b = b

unfoldable pub resolve_root : EnvPolicy → PathRule → Env → FilePath
resolve_root data_dir_only rule env = or_else (from_env env_data_dir rule env) default_root
resolve_root bigfred_then_data_dir rule env =
    or_else (from_env env_bigfred_data_dir rule env)
      (or_else (from_env env_data_dir rule env) default_root)

-- `DataDir::resolve` and `from_path`
abbrev pub resolve : EnvPolicy → PathRule → Env → DataDir
resolve policy rule env = record { root = resolve_root policy rule env }

abbrev pub from_path : FilePath → DataDir
from_path path = record { root = path }

-- `DataDir::join`
unfoldable pub push_all : FilePath → List FilePath → FilePath
push_all out [] = out
push_all out (part ∷ parts) = push_all (push out part) parts

abbrev pub join : DataDir → List FilePath → FilePath
join d parts = push_all d.root parts

-- The paths of a daemon that is called `name`.
unfoldable pub etc_file : DataDir → (name ext : Str) → FilePath
unfolding push_all
etc_file d name ext = join d (codes "etc" ∷ (name ++ codes "." ++ ext) ∷ [])

unfoldable pub etc_dir : DataDir → (name : Str) → FilePath
unfolding push_all
etc_dir d name = join d (codes "etc" ∷ name ∷ [])

unfoldable pub run_socket : DataDir → (name : Str) → FilePath
unfolding push_all
run_socket d name = join d (codes "run" ∷ (name ++ codes ".sock") ∷ [])

unfoldable pub run_nested_socket : DataDir → (name : Str) → FilePath
unfolding push_all
run_nested_socket d name = join d (codes "run" ∷ name ∷ (name ++ codes ".sock") ∷ [])

-- The process-wide root, and paths below it.
unfoldable pub root : Env → FilePath
root env = (resolve data_dir_only absolute_only env).root

unfoldable pub path : List FilePath → Env → FilePath
unfolding root push_all
path parts env = join (from_path (root env)) parts

unfoldable pub set_root : FilePath → Env → Env
set_root p env = if is_absolute p then set_var env_data_dir p env else env
