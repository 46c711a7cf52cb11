-- ===== src/Fleet/Steps.antt =====
-- One daemon of a fleet starts or stops: what the table of owners says stays true, on a Unix system
-- that refuses it no call.
use rust_commons.Prelude.{
  ℕ, ◌≡◌, refl, sym, ap, ◌∙◌, false, true, Option, none, some, Result, ok, err, Str, str_eq,
  str_eq_iff, str_eq_refl, Bool-cases, inl, inr, if◌then◌else◌, arith,
}
use rust_commons.FilePath.{FilePath, needs_slash}
use rust_commons.DataDir.{DataDir, run_socket}
use rust_commons.Bind.{Os, BindOptions, BindError, bind}
use rust_commons.Bind.World.{
  Node, socket, Call, connecting, removing, making_dir, listening, reading_mode, setting_mode,
  setting_owner, World, kernel, as_process,
}
use rust_commons.Bind.Kernel.{live}
use rust_commons.Bind.Unix.{IsUnix}
use rust_commons.Bind.Unix.Calls.{refusals}
use rust_commons.Bind.Singleton.{
  answer, refusal, end_of, bind_live, bind_told, bind_end, bind_granted, FreeEnd-served,
  FreeEnd-apart,
}
use rust_commons.Fleet.{Fleet, Owners, set_at, after_bind, on_starts, on_stops, claim_name}
use rust_commons.Fleet.Sockets.{IsDaemonName, other_socket}

abbrev pub owner_of : {L : Type 0} → Option (ℕ × L) → Option ℕ
owner_of none = none
owner_of (some (pid, l)) = some pid

-- What a process leaves of its own socket, and of others, when it closes the listener.
live_closed :
    (path p : FilePath) (pid : ℕ) (w : World)
    → live (w.entries path) ≡ some pid
    → live ((kernel.close path (as_process pid w)).entries p)
      ≡ (if str_eq path p then none else live (w.entries p))
live_closed path p pid w h = ground (arith, str_eq_refl path)

-- The entries of two states that differ at most at one path.
ends_apart :
    (path p : FilePath) (left : Option Node) (w w' : World)
    → w'.entries path ≡ left
    → (str_eq path p ≡ false → w'.entries p ≡ w.entries p)
    → w'.entries p ≡ (if str_eq path p then left else w.entries p)
ends_apart path p left w w' standing apart = elim (Bool-cases (str_eq path p)) [
  | inl same ↦ let here : path ≡ p = (str_eq_iff path p).0 same in rw (same, ← here) standing
  | inr differ ↦ rw differ (apart differ)
]

module _ {W U L E : Type 0} (os : Os W U L E) (unix : IsUnix os) (d : DataDir)
    (rooted : needs_slash d.root ≡ true) (opts_of : Str → BindOptions)
    (at_socket : (name : Str) → (opts_of name).path ≡ run_socket d name)
    (grants : (call : Call) (p : FilePath) (w : W) → unix.refuses call p w ≡ none) where
  open unix use {view, place, enter, view_enter}

  abbrev pub listener_at : Str → W → Option ℕ
  listener_at name w = live ((view w).entries (run_socket d name))

  -- The table says who serves the socket of each name, and which listeners there are.
  pub record Matches (owners : Owners) (f : Fleet W L) : Type 0 where
    pub served : (name : Str) → IsDaemonName name → listener_at name f.world ≡ owners name
    pub listed : (name : Str) → owner_of (f.running name) ≡ owners name
    pub placed :
        (name : Str) (pid : ℕ) (l : L)
        → f.running name ≡ some (pid, l)
        → place l ≡ run_socket d name

  entered : (pid : ℕ) (name : Str) (w : W) → listener_at name (enter pid w) ≡ listener_at name w
  entered pid name w = ap (λ v. live (v.entries (run_socket d name))) (view_enter pid w)

  refused_after :
      (pid : ℕ) (name : Str) (e : BindError) (owners : Owners) (f : Fleet W L)
      (x : Result BindError L × W)
      → Matches owners f
      → answer place x.0 ≡ err e
      → view x.1 ≡ view (enter pid f.world)
      → (answer place (after_bind os enter opts_of pid name x f).0 ≡ err e)
        × Matches owners (after_bind os enter opts_of pid name x f).1
  refused_after pid name e owners f (ok l, w) m h v = cc
  refused_after pid name e owners f (err e', w) m h v = (
    h,
    record {
      served = λ n good.
          ap (λ z. live (z.entries (run_socket d n))) v ∙ (entered pid n f.world ∙ m.served n good);
      listed = m.listed;
      placed = m.placed;
    },
  )

  nothing_refused : (opts : BindOptions) (w : W) (call : Call) → refusals os unix opts w call ≡ none
  nothing_refused opts w connecting = grants connecting _ _
  nothing_refused opts w removing = grants removing _ _
  nothing_refused opts w making_dir = grants making_dir _ _
  nothing_refused opts w listening = grants listening _ _
  nothing_refused opts w reading_mode = grants reading_mode _ _
  nothing_refused opts w setting_mode = grants setting_mode _ _
  nothing_refused opts w setting_owner = grants setting_owner _ _

  -- A name that is owned.
  refused :
      (pid owner : ℕ) (name : Str) (owners : Owners) (f : Fleet W L)
      → IsDaemonName name
      → Matches owners f
      → owners name ≡ some owner
      → (answer place (on_starts os enter opts_of pid name f).0
          ≡ refusal os.display (opts_of name) owner)
        × Matches owners (on_starts os enter opts_of pid name f).1
  refused pid owner name owners f good m taken =
      let w = enter pid f.world in
      let busy : live ((view w).entries (opts_of name).path) ≡ some owner =
        rw (at_socket name) (entered pid name f.world ∙ (m.served name good ∙ taken)) in
      let (_, v) = bind_live os unix (opts_of name) w owner busy in
      let r =
        bind_told os unix (opts_of name) w owner busy (grants making_dir _ _)
          (grants connecting _ _) in
      refused_after pid name _ owners f (bind os (opts_of name) w) m r v

  -- What stands in the table and at the sockets behind a `bind` that succeeds.
  bound_after :
      (pid : ℕ) (name : Str) (left : Option Node) (owners : Owners) (f : Fleet W L)
      (x : Result BindError L × W)
      → IsDaemonName name
      → Matches owners f
      → answer place x.0 ≡ ok (run_socket d name)
      → live left ≡ some pid
      → ((p : FilePath)
          → (view x.1).entries p
            ≡ (if str_eq (run_socket d name) p then left else (view (enter pid f.world)).entries p))
      → (answer place (after_bind os enter opts_of pid name x f).0 ≡ ok (run_socket d name))
        × Matches (set_at name (some pid) owners) (after_bind os enter opts_of pid name x f).1
  bound_after pid name left owners f (err e, w) good m h serves v = cc
  bound_after pid name left owners f (ok l, w) good m h serves v = (
    h,
    record {
      served = λ n named. elim (Bool-cases (str_eq name n)) [
        | inl same ↦
            let e : name ≡ n = (str_eq_iff name n).0 same in
            rw (same, v (run_socket d n), ← e, str_eq_refl (run_socket d name)) serves
        | inr differ ↦
            rw (differ, v (run_socket d n), other_socket d rooted name n good named differ)
              (entered pid n f.world ∙ m.served n named)
      ];
      listed = λ n. elim (Bool-cases (str_eq name n)) [
        | inl same ↦ rw same refl
        | inr differ ↦ rw differ (m.listed n)
      ];
      placed = λ n k l' e. elim (Bool-cases (str_eq name n)) [
        | inl same ↦
            let given : some (pid, l) ≡ some (k, l') = rw same at e in
            let here : name ≡ n = (str_eq_iff name n).0 same in cc
        | inr differ ↦ m.placed n k l' (rw differ at e)
      ];
    },
  )

  bound :
      (pid : ℕ) (name : Str) (owners : Owners) (f : Fleet W L)
      → IsDaemonName name
      → Matches owners f
      → owners name ≡ none
      → (answer place (on_starts os enter opts_of pid name f).0 ≡ ok (run_socket d name))
        × Matches (set_at name (some pid) owners) (on_starts os enter opts_of pid name f).1
  bound pid name owners f good m free =
      let w = enter pid f.world in
      let idle : live ((view w).entries (opts_of name).path) ≡ none =
        rw (at_socket name) (entered pid name f.world ∙ (m.served name good ∙ free)) in
      let x = end_of os unix (opts_of name) w in
      let granted : (call : Call) → refusals os unix (opts_of name) w call ≡ none =
        nothing_refused (opts_of name) w in
      let r = bind_granted os unix (opts_of name) w idle granted in
      let end = bind_end os unix (opts_of name) w idle in
      let (standing, _) = FreeEnd-served (opts_of name) (view w) x end r in
      let caller : (view w).pid ≡ pid = ap (λ v. v.pid) (view_enter pid f.world) in
      bound_after pid name
        (some (socket (some (view w).pid) (opts_of name).mode (opts_of name).chown)) owners f
        (bind os (opts_of name) w) good m (r ∙ ap (λ (p : FilePath). ok p) (at_socket name))
        (ap (λ (n : ℕ). some n) caller)
        (λ p.
          ends_apart (opts_of name).path p _ (view w) x.1 standing
            (FreeEnd-apart (opts_of name) (view w) x end p)
          ∙ ap
              (λ (q : FilePath).
                if str_eq q p
                then some (socket (some (view w).pid) (opts_of name).mode (opts_of name).chown)
                else (view w).entries p)
              (at_socket name))

  pub stopped_at :
      (name : Str) (o : Option (ℕ × L)) (owners : Owners) (f : Fleet W L)
      → IsDaemonName name
      → Matches owners f
      → f.running name ≡ o
      → Matches (set_at name none owners) (on_stops os enter opts_of name o f)
  stopped_at name none owners f good m e =
      let free : owners name ≡ none = sym (m.listed name) ∙ ap owner_of e in
      let same_table : (n : Str) → owners n ≡ set_at name none owners n = λ n.
        elim (Bool-cases (str_eq name n)) [
          | inl same ↦
              let here : name ≡ n = (str_eq_iff name n).0 same in rw (same, ← here, free) refl
          | inr differ ↦ rw differ refl
        ] in
      record {
        served = λ n named. m.served n named ∙ same_table n;
        listed = λ n. m.listed n ∙ same_table n;
        placed = m.placed;
      }
  stopped_at name (some (pid, l)) owners f good m e =
      let owned : live ((view f.world).entries (run_socket d name)) ≡ some pid =
        m.served name good ∙ (sym (m.listed name) ∙ ap owner_of e) in
      let after : view (os.close l (enter pid f.world))
          ≡ kernel.close (run_socket d name) (as_process pid (view f.world)) =
        unix.closes l (enter pid f.world)
        ∙ (ap (λ (p : FilePath). kernel.close p (view (enter pid f.world))) (m.placed name pid l e)
            ∙ ap (λ v. kernel.close (run_socket d name) v) (view_enter pid f.world)) in
      record {
        served = λ n named. elim (Bool-cases (str_eq name n)) [
          | inl same ↦
              let here : name ≡ n = (str_eq_iff name n).0 same in
              rw
                (
                  same,
                  after,
                  live_closed (run_socket d name) (run_socket d n) pid (view f.world) owned,
                  ← here,
                  str_eq_refl (run_socket d name),
                )
                refl
          | inr differ ↦
              rw
                (
                  differ,
                  after,
                  live_closed (run_socket d name) (run_socket d n) pid (view f.world) owned,
                  other_socket d rooted name n good named differ,
                )
                (m.served n named)
        ];
        listed = λ n. elim (Bool-cases (str_eq name n)) [
          | inl same ↦ rw same refl
          | inr differ ↦ rw differ (m.listed n)
        ];
        placed = λ n k l' e'. elim (Bool-cases (str_eq name n)) [
          | inl same ↦ cc (rw same at e')
          | inr differ ↦ m.placed n k l' (rw differ at e')
        ];
      }

  pub started :
      (pid : ℕ) (name : Str) (o : Option ℕ) (owners : Owners) (f : Fleet W L)
      → IsDaemonName name
      → Matches owners f
      → owners name ≡ o
      → (answer place (on_starts os enter opts_of pid name f).0
          ≡ (claim_name os.display opts_of pid name o owners).0)
        × Matches
            (claim_name os.display opts_of pid name o owners).1
            (on_starts os enter opts_of pid name f).1
  started pid name none owners f good m e =
      let (r, m') = bound pid name owners f good m e in
      (r ∙ ap (λ (p : FilePath). ok p) (sym (at_socket name)), m')
  started pid name (some owner) owners f good m e = refused pid owner name owners f good m e
