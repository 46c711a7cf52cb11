-- ===== src/Command/Lookup.antt =====
-- The router of ipc/command.rs as a finite map: what `get` finds after `add`, whether or not the
-- registration was accepted.
use rust_commons.Prelude.{
  ◌≡◌, ◌≢◌, none, some, Str, str_eq, str_eq_iff, arith, if◌then◌else◌, Option-cases, inl, inr,
  Bool-cases,
}
use rust_commons.Command.{Command, Router, empty_router, get, add}

module _ {S U J V : Type 0} where
  -- After a registration, accepted or not, every name leads where it led before, but for the name
  -- of the command if it was free: that one leads to the command.
  pub get-add :
      (cmd : Command S U J V) (r : Router S U J V) (name : Str)
      → get (add cmd r).1 name ≡ elim (get r cmd.name) [
        | some _ ↦ get r name
        | none ↦ if str_eq cmd.name name then some cmd else get r name
      ]
  unfolding get add
  get-add cmd r name = ground arith

  -- No registration replaces a command: what was found before is found after.
  pub get-add_keeps :
      (cmd c : Command S U J V) (r : Router S U J V) (name : Str)
      → get r name ≡ some c
      → get (add cmd r).1 name ≡ some c
  unfolding get add
  get-add_keeps cmd c r name h = ground (arith, str_eq_iff cmd.name name)

  -- Every command stands under its own name.
  abbrev pub IsKeyed : Router S U J V → Type 0
  IsKeyed r = (name : Str) (c : Command S U J V) → get r name ≡ some c → c.name ≡ name

  pub empty_router-IsKeyed : IsKeyed empty_router
  unfolding get
  empty_router-IsKeyed name c h = cc

  -- The registrations that a daemon makes, accepted or not, keep every command under the name by
  -- which the wire asks for it.
  pub add-IsKeyed : (cmd : Command S U J V) (r : Router S U J V) → IsKeyed r → IsKeyed (add cmd r).1
  add-IsKeyed cmd r keyed name c h = elim (Option-cases (get r cmd.name)) [
    | inl free ↦ elim (Bool-cases (str_eq cmd.name name)) [
      | inl same ↦
          let e : cmd ≡ c = cc (rw (get-add, free, same) at h) in
          rw (← e) ((str_eq_iff cmd.name name).0 same)
      | inr apart ↦ keyed name c (rw (get-add, free, apart) at h)
    ]
    | inr (old, taken) ↦ keyed name c (rw (get-add, taken) at h)
  ]

  -- The order in which two commands of different names are registered does not matter.
  pub add_comm :
      (a b : Command S U J V) (r : Router S U J V) (name : Str)
      → a.name ≢ b.name
      → get (add a (add b r).1).1 name ≡ get (add b (add a r).1).1 name
  unfolding get add
  add_comm a b r name ne = ground (
    arith,
    str_eq_iff a.name b.name,
    str_eq_iff b.name a.name,
    str_eq_iff a.name name,
    str_eq_iff b.name name,
  )
