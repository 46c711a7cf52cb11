-- ===== src/DataDir/Resolve.antt =====
-- Which root datadir.rs resolves, and what `set_root` does to it.
use rust_commons.Prelude.{
  ◌≡◌, refl, inl, inr, true, Option, none, some, [], ◌∷◌, if◌then◌else◌, Str, str_eq_refl,
  Bool-cases,
}
use rust_commons.FilePath.{FilePath, is_absolute}
use rust_commons.DataDir.{
  EnvPolicy, data_dir_only, bigfred_then_data_dir, absolute_only, Env, env_data_dir,
  env_bigfred_data_dir, default_root, from_env, resolve_root, root, set_root, accept_absolute,
  or_else,
}

or_else-is_absolute :
    (value : Option Str) (base : FilePath)
    → is_absolute base ≡ true
    → is_absolute (or_else (accept_absolute value) base) ≡ true
or_else-is_absolute none base h = h
or_else-is_absolute (some []) base h = h
or_else-is_absolute (some (c ∷ v)) base h = elim (Bool-cases (is_absolute (c ∷ v))) [
  | inl absolute ↦ rw absolute absolute
  | inr relative ↦ rw relative h
]

default_root-is_absolute : is_absolute default_root ≡ true
unfolding is_absolute
default_root-is_absolute = refl

-- Under the rule `AbsoluteOnly` the root is an absolute path, whatever stands in the environment.
pub resolve_root-is_absolute :
    (policy : EnvPolicy) (env : Env) → is_absolute (resolve_root policy absolute_only env) ≡ true
unfolding resolve_root from_env
resolve_root-is_absolute data_dir_only env =
    or_else-is_absolute (env env_data_dir) default_root default_root-is_absolute
resolve_root-is_absolute bigfred_then_data_dir env =
    or_else-is_absolute (env env_bigfred_data_dir) _
      (or_else-is_absolute (env env_data_dir) default_root default_root-is_absolute)

-- `set_root` of an absolute path makes it the root; of any other path it changes nothing.
pub root-set_root :
    (p : FilePath) (env : Env) → root (set_root p env) ≡ (if is_absolute p then p else root env)
unfolding root set_root resolve_root from_env
root-set_root [] env = unfold is_absolute in refl
root-set_root (c ∷ s) env = elim (Bool-cases (is_absolute (c ∷ s))) [
  | inl absolute ↦ rw (absolute, str_eq_refl, absolute)
  | inr relative ↦ rw relative
]
