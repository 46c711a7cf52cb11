-- ===== src/DataDir/Examples.antt =====
-- Tests of datadir.rs and its theorems at concrete environments.
use rust_commons.Prelude.{◌≡◌, refl, true, none, List, [], ◌∷◌, ◌++◌, codes, str_eq}
use rust_commons.FilePath.{FilePath, is_absolute}
use rust_commons.DataDir.{
  bigfred_then_data_dir, absolute_only, Env, set_var, env_data_dir, env_bigfred_data_dir, DataDir,
  from_env, resolve_root, from_path, join, etc_file, etc_dir, run_socket, run_nested_socket,
}
use rust_commons.DataDir.Paths.{AllRelative, join-absolute, daemon_paths}
use rust_commons.FilePath.Laws.{IsName}

abbrev clean : Env
clean = λ name. none

abbrev both_set : Env
both_set = set_var env_bigfred_data_dir (codes "rel") (set_var env_data_dir (codes "/d") clean)

absolute_only_falls_back : resolve_root bigfred_then_data_dir absolute_only both_set ≡ codes "/d"
unfolding resolve_root from_env str_eq is_absolute
absolute_only_falls_back = refl

abbrev data_root : DataDir
data_root = from_path (codes "/data")

abbrev etc_parts : List FilePath
etc_parts = codes "etc" ∷ codes "a.json" ∷ []

parts_relative : AllRelative etc_parts
unfolding is_absolute
parts_relative = (refl, (refl, tt))

tmp_absolute : is_absolute (codes "/tmp") ≡ true
unfolding is_absolute
tmp_absolute = refl

join-absolute_example :
    join data_root (codes "etc" ∷ codes "/tmp" ∷ codes "x" ∷ [])
    ≡ join (from_path (codes "/tmp")) (codes "x" ∷ [])
join-absolute_example =
    join-absolute data_root (codes "etc" ∷ []) (codes "/tmp") (codes "x" ∷ []) tmp_absolute

plain-IsName : IsName (codes "dns")
unfolding str_eq
plain-IsName = record { one_piece = refl; filled = refl; not_here = refl; not_above = refl }

json-IsName : IsName (codes "dns" ++ codes "." ++ codes "json")
unfolding str_eq
json-IsName = record { one_piece = refl; filled = refl; not_here = refl; not_above = refl }

sock-IsName : IsName (codes "dns" ++ codes ".sock")
unfolding str_eq
sock-IsName = record { one_piece = refl; filled = refl; not_here = refl; not_above = refl }

daemon_paths_example :
    (etc_file data_root (codes "dns") (codes "json") ≡ codes "/data/etc/dns.json")
    × (etc_dir data_root (codes "dns") ≡ codes "/data/etc/dns")
    × (run_socket data_root (codes "dns") ≡ codes "/data/run/dns.sock")
    × (run_nested_socket data_root (codes "dns") ≡ codes "/data/run/dns/dns.sock")
daemon_paths_example =
    daemon_paths data_root (codes "dns") (codes "json") refl plain-IsName json-IsName sock-IsName
