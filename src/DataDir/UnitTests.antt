-- ===== src/DataDir/UnitTests.antt =====
-- The unit tests of datadir.rs, in an environment that holds anything else.
use rust_commons.Prelude.{
  ◌≡◌, refl, Bool, true, none, ◌&&◌, [], ◌∷◌, Str, codes, str_eq, if◌then◌else◌,
}
use rust_commons.FilePath.{FilePath, is_absolute, push, to_str}
use rust_commons.DataDir.{
  absolute_only, accept_any, bigfred_then_data_dir, Env, set_var, env_data_dir,
  env_bigfred_data_dir, default_root, from_env, resolve_root, resolve, from_path, etc_file, etc_dir,
  run_socket, run_nested_socket, root, path, set_root,
}

-- `std::env::remove_var`
abbrev remove_var : Str → Env → Env
remove_var name env n = if str_eq name n then none else env n

abbrev with_clean_env : (Env → Bool) → Env → Bool
with_clean_env f env = f (remove_var env_bigfred_data_dir (remove_var env_data_dir env))

abbrev root_defaults_to_data : Env → Bool
root_defaults_to_data = with_clean_env (λ env. str_eq (root env) default_root)

-- `dir` is a path below `temp_dir()`.
abbrev data_dir_absolute_wins : FilePath → Env → Bool
data_dir_absolute_wins dir = with_clean_env (λ clean.
    let env = set_var env_data_dir dir clean in
    str_eq (root env) dir
    && str_eq (path (codes "etc" ∷ codes "micronet.json" ∷ []) env)
        (push dir (codes "etc/micronet.json")))

abbrev relative_data_dir_ignored : Env → Bool
relative_data_dir_ignored =
    with_clean_env
      (λ clean. str_eq (root (set_var env_data_dir (codes "relative/path") clean)) default_root)

abbrev empty_data_dir_ignored : Env → Bool
empty_data_dir_ignored =
    with_clean_env (λ clean. str_eq (root (set_var env_data_dir (codes "") clean)) default_root)

abbrev bigfred_env_wins_over_data_dir : Env → Bool
bigfred_env_wins_over_data_dir = with_clean_env (λ clean.
    let env =
      set_var env_bigfred_data_dir (codes "/data-from-bf")
        (set_var env_data_dir (codes "/data-from-data") clean) in
    str_eq (resolve bigfred_then_data_dir absolute_only env).root (codes "/data-from-bf"))

abbrev accept_any_keeps_relative : Env → Bool
accept_any_keeps_relative = with_clean_env (λ clean.
    let env = set_var env_bigfred_data_dir (codes "rel") clean in
    str_eq (resolve bigfred_then_data_dir accept_any env).root (codes "rel"))

abbrev identity_helpers : Bool
identity_helpers =
    let d = from_path (codes "/data") in
    str_eq (etc_file d (codes "micronet") (codes "json")) (codes "/data/etc/micronet.json")
    && (str_eq (etc_dir d (codes "microwaf")) (codes "/data/etc/microwaf")
        && (str_eq (run_socket d (codes "micronet")) (codes "/data/run/micronet.sock")
            && str_eq (run_nested_socket d (codes "microwaf"))
                (codes "/data/run/microwaf/microwaf.sock")))

abbrev set_root_absolute_only : FilePath → Env → Bool
set_root_absolute_only dir = with_clean_env (λ clean.
    let env = set_root (codes "relative") clean in
    str_eq (root env) default_root && str_eq (root (set_root dir env)) dir)

root_defaults_passes : (env : Env) → root_defaults_to_data env ≡ true
unfolding root resolve_root from_env str_eq
root_defaults_passes env = refl

relative_data_dir_passes : (env : Env) → relative_data_dir_ignored env ≡ true
unfolding root resolve_root from_env str_eq is_absolute
relative_data_dir_passes env = refl

empty_data_dir_passes : (env : Env) → empty_data_dir_ignored env ≡ true
unfolding root resolve_root from_env str_eq
empty_data_dir_passes env = refl

bigfred_env_passes : (env : Env) → bigfred_env_wins_over_data_dir env ≡ true
unfolding resolve_root from_env str_eq is_absolute
bigfred_env_passes env = refl

accept_any_passes : (env : Env) → accept_any_keeps_relative env ≡ true
unfolding resolve_root from_env str_eq to_str
accept_any_passes env = refl

identity_helpers_pass : identity_helpers ≡ true
unfolding etc_file etc_dir run_socket run_nested_socket push is_absolute str_eq
identity_helpers_pass = refl

data_dir_absolute_passes : (env : Env) → data_dir_absolute_wins (codes "/tmp/dd-7") env ≡ true
unfolding root path resolve_root from_env str_eq is_absolute push
data_dir_absolute_passes env = refl

set_root_passes : (env : Env) → set_root_absolute_only (codes "/tmp/set-7") env ≡ true
unfolding root set_root resolve_root from_env str_eq is_absolute
set_root_passes env = refl
