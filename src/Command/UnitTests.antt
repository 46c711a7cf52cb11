-- ===== src/Command/UnitTests.antt =====
-- The unit tests of ipc/command.rs, for streams and objects of any kind.
use rust_commons.Prelude.{
  ◌≡◌, refl, Bool, true, false, ◌&&◌, not, Option, none, some, Result, ok, err, Str, codes, str_eq,
}
use rust_commons.Command.{
  Command, DuplicateCommand, empty_router, get, add, find_command, Json, json_type_field,
}

abbrev is_err : Result DuplicateCommand (Unit {0}) → Bool
is_err (ok _) = false
is_err (err _) = true

module _ (U J V : Type 0) where
  abbrev ping : Command (Unit {0}) U J V
  ping = record { name = codes "ping"; execute = λ body s. (ok tt, s) }

  abbrev is_some : Option (Command (Unit {0}) U J V) → Bool
  is_some none = false
  is_some (some _) = true

  abbrev router_rejects_duplicate : Bool
  router_rejects_duplicate =
      let (first, r₁) = add ping empty_router in
      let (again, r) = add ping r₁ in
      not (is_err first)
      && (is_err again && (is_some (get r (codes "ping")) && not (is_some (get r (codes "pong")))))

  router_passes : router_rejects_duplicate ≡ true
  unfolding add get find_command str_eq
  router_passes = refl

module _ {J V : Type 0} (js : Json J V) (v empty : V) where
  -- `v` is `json!({"type": "status", "x": 1})`, and `empty` is `json!({})`.
  abbrev type_field : Option Str × Option Str
  type_field = (json_type_field js v, json_type_field js empty)

  type_field_passes :
      (status : V)
      → js.get v (codes "type") ≡ some status
      → js.as_str status ≡ some (codes "status")
      → js.get empty (codes "type") ≡ none
      → type_field ≡ (some (codes "status"), none)
  unfolding json_type_field
  type_field_passes status found text missing = rw (found, text, missing) refl
