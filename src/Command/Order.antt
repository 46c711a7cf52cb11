-- ===== src/Command/Order.antt =====
-- The router of ipc/command.rs forgets the order of its registrations.
use rust_commons.Prelude.{
  ◌≡◌, ◌≢◌, refl, sym, ◌∙◌, ap, subst, Option, none, some, err, List, [], ◌∷◌, Str, str_eq,
  str_eq_iff, arith, if◌then◌else◌, Permᴰ,
}
use rust_commons.Command.{Command, Router, empty_router, get, add}
use rust_commons.Command.Lookup.{get-add}

module _ {S U J V : Type 0} where
  -- The registrations of a daemon, in their order; one that is refused changes nothing.
  unfoldable pub add_all : List (Command S U J V) → Router S U J V → Router S U J V
  add_all [] r = r
  add_all (c ∷ cmds) r = add_all cmds (add c r).1

  -- Two routers that lead every name to the same command.
  abbrev pub SameCommands : Router S U J V → Router S U J V → Type 0
  SameCommands r q = (name : Str) → get r name ≡ get q name

  abbrev pub Fresh : Command S U J V → List (Command S U J V) → Type 0
  Fresh c [] = Unit {0}
  Fresh c (d ∷ cmds) = (c.name ≢ d.name) × Fresh c cmds

  -- No name is registered twice.
  abbrev pub AllDistinct : List (Command S U J V) → Type 0
  AllDistinct [] = Unit {0}
  AllDistinct (c ∷ cmds) = Fresh c cmds × AllDistinct cmds

  Fresh-perm :
      (c : Command S U J V) {cs ds : List (Command S U J V)} → Permᴰ cs ds → Fresh c cs → Fresh c ds
  Fresh-perm c Permᴰ.nil fresh = tt
  Fresh-perm c (Permᴰ.cons e perm) (here, rest) =
      (subst (λ (x : Command S U J V). c.name ≢ x.name) e here, Fresh-perm c perm rest)
  Fresh-perm c (Permᴰ.swap e f) (one, (two, rest)) = (
    subst (λ (x : Command S U J V). c.name ≢ x.name) f two,
    (subst (λ (x : Command S U J V). c.name ≢ x.name) e one, rest),
  )
  Fresh-perm c (Permᴰ.trans p q) fresh = Fresh-perm c q (Fresh-perm c p fresh)

  AllDistinct-perm :
      {cs ds : List (Command S U J V)} → Permᴰ cs ds → AllDistinct cs → AllDistinct ds
  AllDistinct-perm Permᴰ.nil d = tt
  AllDistinct-perm (Permᴰ.cons {a = a} {l₂ = l₂} e perm) (fresh, d) =
      (subst (λ x. Fresh x l₂) e (Fresh-perm a perm fresh), AllDistinct-perm perm d)
  AllDistinct-perm (Permᴰ.swap {l = l} e f) ((differ, fresh), (fresh', d)) = (
    (
      λ same. differ (ap (λ x. x.name) e ∙ sym same ∙ sym (ap (λ x. x.name) f)),
      subst (λ x. Fresh x l) f fresh',
    ),
    (subst (λ x. Fresh x l) e fresh, d),
  )
  AllDistinct-perm (Permᴰ.trans p q) d = AllDistinct-perm q (AllDistinct-perm p d)

  abbrev found_after :
      Option (Command S U J V)
      → Option (Command S U J V)
      → Command S U J V
      → Str
      → Option (Command S U J V)
  found_after taken before c name = elim taken [
    | some _ ↦ before
    | none ↦ if str_eq c.name name then some c else before
  ]

  add-SameCommands :
      (c : Command S U J V) (r q : Router S U J V)
      → SameCommands r q
      → SameCommands (add c r).1 (add c q).1
  add-SameCommands c r q same name =
      get-add c r name
      ∙ ap (λ o. found_after o (get r name) c name) (same c.name)
      ∙ ap (λ x. found_after (get q c.name) x c name) (same name)
      ∙ sym (get-add c q name)

  add_all-SameCommands :
      (cmds : List (Command S U J V)) (r q : Router S U J V)
      → SameCommands r q
      → SameCommands (add_all cmds r) (add_all cmds q)
  unfolding add_all
  add_all-SameCommands [] r q same = same
  add_all-SameCommands (c ∷ cmds) r q same =
      add_all-SameCommands cmds (add c r).1 (add c q).1 (add-SameCommands c r q same)

  add_comm :
      (a b : Command S U J V) (r : Router S U J V)
      → a.name ≢ b.name
      → SameCommands (add b (add a r).1).1 (add a (add b r).1).1
  unfolding get add
  add_comm a b r differ name = ground (
    arith,
    str_eq_iff a.name name,
    str_eq_iff b.name name,
    str_eq_iff a.name b.name,
    str_eq_iff b.name a.name,
  )

  -- In whatever order commands of distinct names are registered, every name leads to the same.
  pub add_all-perm :
      {cs ds : List (Command S U J V)}
      → Permᴰ cs ds
      → AllDistinct cs
      → (r : Router S U J V) → SameCommands (add_all cs r) (add_all ds r)
  unfolding add_all
  add_all-perm Permᴰ.nil d r name = refl
  add_all-perm (Permᴰ.cons {b = b} {l₁ = l₁} {l₂ = l₂} e perm) (fresh, d) r name =
      add_all-perm perm d _ name ∙ ap (λ x. get (add_all l₂ (add x r).1) name) e
  add_all-perm (Permᴰ.swap {a = a} {b = b} {a' = a'} {l = l} e f) ((differ, fresh), rest) r name =
      add_all-SameCommands l _ _ (add_comm a b r differ) name
      ∙ ap (λ x. get (add_all l (add a (add x r).1).1) name) f
      ∙ ap (λ x. get (add_all l (add x (add a' r).1).1) name) e
  add_all-perm (Permᴰ.trans p q) d r name =
      add_all-perm p d r name ∙ add_all-perm q (AllDistinct-perm p d) r name

  -- The first of the commands with that name.
  abbrev pub first_named : List (Command S U J V) → Str → Option (Command S U J V)
  first_named [] name = none
  first_named (c ∷ cmds) name = if str_eq c.name name then some c else first_named cmds name

  get-add_all :
      (cmds : List (Command S U J V)) (r : Router S U J V) (name : Str)
      → get (add_all cmds r) name
        ≡ elim (get r name) [ some c ↦ some c | none ↦ first_named cmds name ]
  unfolding add_all
  get-add_all [] r name = ground arith
  get-add_all (c ∷ cmds) r name =
      let ih = get-add_all cmds (add c r).1 name in
      ground (arith, ih, get-add c r name, str_eq_iff c.name name)

  add-taken :
      (cmd c : Command S U J V) (r : Router S U J V)
      → get r cmd.name ≡ some c
      → add cmd r ≡ (err (record { name = cmd.name }), r)
  unfolding get add
  add-taken cmd c r taken = rw (add, taken)

  -- Whatever a daemon registers, in whatever order and under whatever names: a name leads to the
  -- first command that was registered under it, and to none if there is no such command; and every
  -- registration under a name that is taken is refused, with that name, and leaves the router as it
  -- is.
  pub registered_first :
      (cmds : List (Command S U J V)) (name : Str)
      → (get (add_all cmds empty_router) name ≡ first_named cmds name)
        × ((cmd c : Command S U J V)
            → first_named cmds cmd.name ≡ some c
            → add cmd (add_all cmds empty_router)
              ≡ (err (record { name = cmd.name }), add_all cmds empty_router))
  unfolding get
  registered_first cmds name = (
    get-add_all cmds empty_router name,
    λ cmd c first.
        add-taken cmd c (add_all cmds empty_router)
          (get-add_all cmds empty_router cmd.name ∙ first),
  )
