-- ===== src/Config/JsonFile/UnitTests.antt =====
-- The unit tests of config/json.rs, in a directory with nothing else in it, for every serde_json
-- that keeps what a test relies on.
use rust_commons.Prelude.{
  ◌≡◌, refl, Option, none, some, ◌++◌, Result, ok, err, Str, codes, str_eq, if◌then◌else◌,
}
use rust_commons.StdIo.{ErrorKind, not_found}
use rust_commons.FilePath.{FilePath, parent}
use rust_commons.Config.{ConfigError, json}
use rust_commons.Config.JsonFile.{Fs, Serde, new, missing_defaults, create_default, load, create}

-- A directory, with the texts of its files.
abbrev Directory : Type 0
Directory = FilePath → Option Str

abbrev text_or_missing : Option Str → Result ErrorKind Str
text_or_missing (some text) = ok text
text_or_missing none = err not_found

abbrev with_file : FilePath → Str → Directory → Directory
with_file p text dir q = if str_eq p q then some text else dir q

abbrev tempdir : Directory
tempdir q = none

abbrev directory_fs : Fs Directory
directory_fs = record {
  read_to_string = λ p dir. (text_or_missing (dir p), dir);
  create_dir_all = λ p dir. (ok tt, dir);
  write = λ p text dir. (ok tt, with_file p text dir);
}

module _ {J T : Type 0} (serde : Serde J T) where
  -- What the load gives, and the text of the file behind it.
  abbrev load_or_create_writes_pretty_json : Result (ConfigError J) T × Option Str
  load_or_create_writes_pretty_json =
      let path = codes "/t/sample.json" in
      let (v, dir) = load directory_fs serde (create_default (new path)) tempdir in (v, dir path)

  abbrev missing_defaults_does_not_write : Result (ConfigError J) T × Option Str
  missing_defaults_does_not_write =
      let path = codes "/t/missing.json" in
      let (v, dir) = load directory_fs serde (missing_defaults (new path)) tempdir in (v, dir path)

  abbrev invalid_json_is_error : Result (ConfigError J) T
  invalid_json_is_error =
      let path = codes "/t/bad.json" in
      (load directory_fs serde (new path) (with_file path (codes "{") tempdir)).0

  abbrev hub_text : Str
  hub_text = codes "{\"hostName\":\"hub\",\"count\":2}"

  abbrev existing_file_roundtrip : Result (ConfigError J) T
  existing_file_roundtrip =
      let path = codes "/t/ok.json" in
      (load directory_fs serde (new path) (with_file path hub_text tempdir)).0

  -- The file ends with a line end, behind the text that serde_json gives.
  load_or_create_passes :
      (body : Str)
      → serde.to_string_pretty serde.default ≡ ok body
      → load_or_create_writes_pretty_json ≡ (ok serde.default, some (body ++ codes "\n"))
  unfolding load create parent str_eq
  load_or_create_passes body pretty = rw pretty refl

  missing_defaults_passes : missing_defaults_does_not_write ≡ (ok serde.default, none)
  unfolding load
  missing_defaults_passes = refl

  invalid_json_passes :
      (e : J) → serde.from_str (codes "{") ≡ err e → invalid_json_is_error ≡ err (json e)
  unfolding load str_eq
  invalid_json_passes e bad = rw bad refl

  existing_file_passes :
      (sample : T) → serde.from_str hub_text ≡ ok sample → existing_file_roundtrip ≡ ok sample
  unfolding load str_eq
  existing_file_passes sample parsed = rw parsed refl
