-- ===== src/Watch/Examples.antt =====
-- Tests of config/watch.rs and its theorems: a filter, and the attaching of a
-- directory that appears late.
use rust_commons.Prelude.{
  ℕ, ◌≡◌, ◌↔◌, refl, Bool, true, false, some, List, [], ◌∷◌, ◌++◌, ok, err, if◌then◌else◌, codes,
  str_eq,
}
use rust_commons.StdIo.{other}
use rust_commons.FilePath.{to_str, slash, push}
use rust_commons.FilePath.Laws.{IsName}
use rust_commons.Watch.{PathFilter, any, WatchSpec, file, dir, is_junk_name, is_relevant_path}
use rust_commons.Watch.Relevant.{Relevant, is_relevant_path_iff, is_relevant_path-file}
use rust_commons.Watch.Attach.{Watcher, attach_spec, attach_pending}

abbrev dropins : PathFilter
dropins = any (codes "json" ∷ []) (codes "microinit.d" ∷ []) []

is_relevant_path_iff_example :
    (is_relevant_path (codes "/data/etc/notes.txt") dropins ≡ true)
    ↔ Relevant (codes "/data/etc/notes.txt") dropins
is_relevant_path_iff_example = is_relevant_path_iff (codes "/data/etc/notes.txt") dropins

config_IsName : IsName (codes "a.json")
unfolding str_eq
config_IsName = record { one_piece = refl; filled = refl; not_here = refl; not_above = refl }

config_text : to_str (codes "a.json") ≡ some (codes "a.json")
unfolding to_str
config_text = refl

is_relevant_path-file_example :
    is_relevant_path
      (codes "/b" ++ slash ∷ codes "a.json")
      (file (push (codes "/e") (codes "a.json"))).filter
    ≡ (if is_junk_name (codes "a.json") then false else str_eq (codes "a.json") (codes "a.json"))
is_relevant_path-file_example =
    is_relevant_path-file (codes "/e") (codes "/b") (codes "a.json") (codes "a.json") refl
      config_IsName config_IsName config_text config_text

-- A file system whose state says whether `/x` is a directory; `/y` never is.
abbrev pub late : Watcher Bool ℕ
late = record {
  is_dir = λ p w. if str_eq p (codes "/x") then w else false;
  create_dir_all = λ p w. (err (other 13), w);
  watch = λ p recursive w. (ok tt, w);
}

abbrev pub two_specs : List WatchSpec
two_specs = dir (codes "/y") true ∷ dir (codes "/x") true ∷ []

second_attached :
    (attach_pending late two_specs (false ∷ false ∷ []) true).attached ≡ false ∷ true ∷ []
unfolding attach_pending attach_spec dir str_eq
second_attached = refl
