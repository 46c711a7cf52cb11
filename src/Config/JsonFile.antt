-- ===== src/Config/JsonFile.antt =====
-- config/json.rs: a configuration in a JSON file, with a default where the file is missing. The
-- file system and serde_json are what the code calls of them.
pub mod Seeding
mod UnitTests
use rust_commons.Prelude.{
  Bool, true, false, Option, none, some, List, [], ◌∷◌, ◌++◌, Result, ok, err, Io, pure, raise,
  lift, then_run, ◌>>=◌, ◌>>◌, with_err, map_err, Str, codes,
}
use rust_commons.StdIo.{ErrorKind, not_found}
use rust_commons.FilePath.{FilePath, parent}
use rust_commons.Config.{ConfigError, io_at, json, Load}

-- `std::fs::{read_to_string, create_dir_all, write}`
pub record Fs (W : Type 0) : Type 0 where
  pub read_to_string : FilePath → Io W ErrorKind Str
  pub create_dir_all : FilePath → Io W ErrorKind (Unit {0})
  pub write : FilePath → Str → Io W ErrorKind (Unit {0})

-- `serde_json::{from_str, to_string_pretty}` and `Default` at the type `T`
pub record Serde (J T : Type 0) : Type 0 where
  pub from_str : Str → Result J T
  pub to_string_pretty : T → Result J Str
  pub default : T

pub data Seed : Type 0 where
  error_if_missing default_in_memory create_file : Seed

pub record JsonFile : Type 0 where
  pub path : FilePath
  pub seed : Seed

-- `JsonFile::new`, `missing_defaults` and `create_default`
abbrev pub new : FilePath → JsonFile
new path = record { path = path; seed = error_if_missing }

abbrev pub missing_defaults : JsonFile → JsonFile
missing_defaults f = record f { seed = default_in_memory }

abbrev pub create_default : JsonFile → JsonFile
create_default f = record f { seed = create_file }

module _ {W J T : Type 0} (fs : Fs W) (serde : Serde J T) where
  abbrev pub make_parent : Option FilePath → Io W (ConfigError J) (Unit {0})
  make_parent none = pure tt
  make_parent (some dir) = with_err (io_at dir) (fs.create_dir_all dir)

  -- The arm `Seed::CreateFile`.
  unfoldable pub create : FilePath → Io W (ConfigError J) T
  create path = do
    make_parent (parent path)
    body ← lift (map_err json (serde.to_string_pretty serde.default))
    with_err (io_at path) (fs.write path (body ++ codes "\n"))
    pure serde.default

  abbrev pub on_missing : FilePath → Seed → Io W (ConfigError J) T
  on_missing path error_if_missing = raise (io_at path not_found)
  on_missing path default_in_memory = pure serde.default
  on_missing path create_file = create path

  abbrev pub after_read : JsonFile → Result ErrorKind Str × W → Result (ConfigError J) T × W
  after_read f (ok text, w) = (map_err json (serde.from_str text), w)
  after_read f (err not_found, w) = on_missing f.path f.seed w
  after_read f (err e, w) = (err (io_at f.path e), w)

  unfoldable pub load : JsonFile → Io W (ConfigError J) T
  load f w = after_read f (fs.read_to_string f.path w)

  -- `impl Load for JsonFile`
  abbrev pub json_load : JsonFile → Load W J T
  json_load f = record { load = load f }
