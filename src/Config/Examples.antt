-- ===== src/Config/Examples.antt =====
-- The theorems of config/json.rs with files in a map. A configuration is a text that is its own JSON.
use rust_commons.Prelude.{
  ℕ, ◌≡◌, ◌⊎◌, refl, Option, none, some, [], ◌∷◌, ◌++◌, Result, ok, err, if◌then◌else◌, Str, codes,
  str_eq, str_eq_refl, ap,
}
use rust_commons.StdIo.{ErrorKind, not_found}
use rust_commons.FilePath.{FilePath, parent}
use rust_commons.Config.JsonFile.{Fs, Serde, create_file, JsonFile, create_default, load, create}
use rust_commons.Config.JsonFile.Seeding.{ReadsBack, Parses, load_reads_only, load_after_create}

abbrev Files : Type 0
Files = FilePath → Option Str

abbrev shown : Option Str → Result ErrorKind Str
shown (some text) = ok text
shown none = err not_found

abbrev files : Fs Files
files = record {
  read_to_string = λ p w. (shown (w p), w);
  create_dir_all = λ p w. (ok tt, w);
  write = λ p text w. (ok tt, λ q. if str_eq p q then some text else w q);
}

-- A value is the text without the line end.
abbrev without_last : Str → Str
without_last [] = []
without_last (c ∷ []) = []
without_last (c ∷ d ∷ s) = c ∷ without_last (d ∷ s)

without_last-append : (s : Str) (c : ℕ) → without_last (s ++ c ∷ []) ≡ s
without_last-append [] c = refl
without_last-append (a ∷ []) c = refl
without_last-append (a ∷ b ∷ s) c = ap (λ (l : Str). a ∷ l) (without_last-append (b ∷ s) c)

abbrev texts : Serde ℕ Str
texts = record {
  from_str = λ text. ok (without_last text);
  to_string_pretty = λ value. ok value;
  default = codes "{}";
}

abbrev seeded : JsonFile
seeded = create_default (record { path = codes "a.json"; seed = create_file })

abbrev no_files : Files
no_files = λ p. none

load_reads_only_example :
    ((load files texts seeded no_files).1 ≡ no_files)
    ⊎ ((◌≡◌ {A = Result ErrorKind Str} (err not_found) (err not_found))
        × (seeded.seed ≡ create_file))
load_reads_only_example = load_reads_only files texts seeded no_files

files_read_back : ReadsBack files texts seeded
files_read_back p text w e = rw (str_eq_refl p)

texts_parse : Parses files texts seeded
texts_parse value text e = rw (without_last-append text 10) (cc)

abbrev one_file : Files
one_file = λ q. if str_eq (codes "a.json") q then some (codes "{}" ++ codes "\n") else none

first_load : load files texts seeded no_files ≡ (ok (codes "{}"), one_file)
unfolding load create parent str_eq
first_load = refl

load_after_create_example :
    (codes "{}" ≡ codes "{}") × ((load files texts seeded one_file).0 ≡ ok (codes "{}"))
load_after_create_example =
    load_after_create files texts seeded no_files one_file (codes "{}") files_read_back texts_parse
      refl refl first_load
