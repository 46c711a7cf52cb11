-- ===== src/Bind/Singleton.antt =====
-- A control socket has one live listener: what `bind` of ipc/bind.rs does on a Unix system to a
-- socket that is served, and to a path that is free or holds a leftover, whatever the system refuses.
use rust_commons.Prelude.{
  ℕ, ◌≡◌, refl, sym, ap, ◌∙◌, false, none, some, List, [], ◌∷◌, Result, ok, err, Str, str_eq, subst,
}
use rust_commons.FilePath.{FilePath}
use rust_commons.Bind.{Os, BindOptions, BindError, make_parent, bind}
use rust_commons.Bind.World.{Call, connecting, making_dir, socket, World, kernel_with}
use rust_commons.Bind.Kernel.{
  live, IsTurnedAway, running, FreeEnd, bound, failed, kernel_live, kernel_told,
}
use rust_commons.Bind.Kernel.Free.{kernel_free, kernel_grants}
use rust_commons.Bind.Unix.{IsUnix, seen}
use rust_commons.Bind.Unix.Calls.{seen-bind, refusals, view-make_parent}

-- The path at which a listener listens, or the error.
abbrev pub answer : {X A B : Type 0} → (A → B) → Result X A → Result X B
answer f (ok a) = ok (f a)
answer f (err e) = err e

pub answer-eq-err :
    {X A B : Type 0} (f : A → B) (r : Result X A) (e : X) → answer f r ≡ err e → r ≡ err e
answer-eq-err f (ok a) e h = cc
answer-eq-err f (err x) e h = cc

pub seen-answer :
    {X A B W : Type 0} (f : A → B) (view : W → World) (x : Result X A × W)
    → seen f view x ≡ (answer f x.0, view x.1)
seen-answer f view (ok a, w) = refl
seen-answer f view (err e, w) = refl

-- The answer to a process that is told of the one that serves the path.
abbrev pub refusal :
    (display : FilePath → Str) → BindOptions → (owner : ℕ) → Result BindError FilePath
refusal display opts owner = err (running display opts owner)

module _ (opts : BindOptions) (w : World) (x : Result BindError FilePath × World) where
  pub FreeEnd-served :
      FreeEnd opts w x
      → x.0 ≡ ok opts.path
      → (x.1.entries opts.path ≡ some (socket (some w.pid) opts.mode opts.chown))
        × (x.1.pid ≡ w.pid)
  FreeEnd-served (bound done standing apart same_pid) h = (standing, same_pid)
  FreeEnd-served (failed q k broken idle) h = cc

  pub FreeEnd-apart :
      FreeEnd opts w x → (p : FilePath) → str_eq opts.path p ≡ false → x.1.entries p ≡ w.entries p
  FreeEnd-apart (bound done standing apart same_pid) = apart
  FreeEnd-apart (failed q k broken idle) = idle.apart

module _ {W U L E : Type 0} (os : Os W U L E) (unix : IsUnix os) where
  open unix use {view, place, enter, view_enter, not_as_stale}

  module _ (opts : BindOptions) (w : W) where
    -- The answer and the files behind a call of `bind`.
    abbrev pub end_of : Result BindError FilePath × World
    end_of = (answer place (bind os opts w).0, view (bind os opts w).1)

    pub bind_parts : end_of ≡ bind (kernel_with os.display (refusals os unix opts w)) opts (view w)
    bind_parts = sym (seen-answer place view (bind os opts w)) ∙ seen-bind os unix opts w

    -- On a Unix system, a socket that is served by a process is left alone, and every other file
    -- with it, also where the caller may not connect to it.
    pub bind_live :
        (pid : ℕ)
        → live ((view w).entries opts.path) ≡ some pid
        → IsTurnedAway (running os.display opts pid) (answer place (bind os opts w).0)
          × (view (bind os opts w).1 ≡ view w)
    bind_live pid h =
        let at_connect : live ((view (make_parent os opts.path w).1).entries opts.path) ≡ some pid =
          ap (λ v. live (v.entries opts.path)) (view-make_parent os unix opts w) ∙ h in
        let (r, v) =
          kernel_live os.display (refusals os unix opts w) opts pid (view w) h
            (λ k. not_as_stale opts.path (make_parent os opts.path w).1 pid k at_connect) in
        (
          subst (IsTurnedAway (running os.display opts pid)) (sym (ap (λ z. z.0) bind_parts)) r,
          ap (λ z. z.1) bind_parts ∙ v,
        )

    -- Where the directory is there and the call of `connect` is made, the error names the process.
    pub bind_told :
        (pid : ℕ)
        → live ((view w).entries opts.path) ≡ some pid
        → refusals os unix opts w making_dir ≡ none
        → refusals os unix opts w connecting ≡ none
        → answer place (bind os opts w).0 ≡ err (running os.display opts pid)
    bind_told pid h made granted =
        ap (λ z. z.0) bind_parts
        ∙ kernel_told os.display (refusals os unix opts w) opts pid (view w) h made granted

    pub bind_end : live ((view w).entries opts.path) ≡ none → FreeEnd opts (view w) end_of
    bind_end h =
        subst (FreeEnd opts (view w)) (sym bind_parts)
          (kernel_free os.display (refusals os unix opts w) opts (view w) h)

    pub bind_granted :
        live ((view w).entries opts.path) ≡ none
        → ((call : Call) → refusals os unix opts w call ≡ none)
        → answer place (bind os opts w).0 ≡ ok opts.path
    bind_granted h granted =
        let nothing : refusals os unix opts w ≡ (λ call. none) = λ i call. granted call i in
        ap (λ z. z.0) bind_parts
        ∙ ap (λ refused. (bind (kernel_with os.display refused) opts (view w)).0) nothing
        ∙ kernel_grants os.display opts (view w) h

  -- Processes that try to bind the same socket, one after another.
  unfoldable pub attempts : BindOptions → List ℕ → W → List (Result BindError FilePath) × W
  attempts opts [] w = ([], w)
  attempts opts (pid ∷ pids) w =
      let (r, w₁) = bind os opts (enter pid w) in
      let (rs, w₂) = attempts opts pids w₁ in (answer place r ∷ rs, w₂)

  -- Each of the answers turns a process away.
  abbrev pub AllTurnedAway : BindError → List (Result BindError FilePath) → Type 0
  AllTurnedAway told_error [] = Unit {0}
  AllTurnedAway told_error (r ∷ rs) = IsTurnedAway told_error r × AllTurnedAway told_error rs

  attempts-live :
      (opts : BindOptions) (owner : ℕ) (pids : List ℕ) (w : W)
      → live ((view w).entries opts.path) ≡ some owner
      → AllTurnedAway (running os.display opts owner) (attempts opts pids w).0
        × ((p : FilePath) → (view (attempts opts pids w).1).entries p ≡ (view w).entries p)
  unfolding attempts
  attempts-live opts owner [] w h = (tt, λ p. refl)
  attempts-live opts owner (pid ∷ pids) w h =
      let entered : live ((view (enter pid w)).entries opts.path) ≡ some owner =
        rw (view_enter pid w) h in
      let (r, e) = bind_live opts (enter pid w) owner entered in
      let kept : (view (bind os opts (enter pid w)).1).entries ≡ (view w).entries =
        ap (λ v. v.entries) e ∙ ap (λ v. v.entries) (view_enter pid w) in
      let (rs, same_files) =
        attempts-live opts owner pids (bind os opts (enter pid w)).1 (rw kept h) in
      ((r, rs), λ p. same_files p ∙ ap (λ f. f p) kept)

  -- On a Unix system, whatever it refuses: if a process has bound a path that nobody served, then
  -- all who try to bind it afterwards, one at a time and as whatever user, are turned away, with the
  -- first process as the one that is running, or with the error of a call that was refused; none of
  -- them removes or changes a file, so that the first still serves the socket, with the mode and the
  -- owner that were asked for.
  pub first_keeps_socket :
      (opts : BindOptions) (pid : ℕ) (pids : List ℕ) (w : W)
      → live ((view w).entries opts.path) ≡ none
      → answer place (bind os opts (enter pid w)).0 ≡ ok opts.path
      → AllTurnedAway
          (running os.display opts pid)
          (attempts opts pids (bind os opts (enter pid w)).1).0
        × ((view (attempts opts pids (bind os opts (enter pid w)).1).1).entries opts.path
            ≡ some (socket (some pid) opts.mode opts.chown))
  first_keeps_socket opts pid pids w h done =
      let w₀ = enter pid w in
      let free : live ((view w₀).entries opts.path) ≡ none = rw (view_enter pid w) h in
      let (standing, _) =
        FreeEnd-served opts (view w₀) (end_of opts w₀) (bind_end opts w₀ free) done in
      let caller : (view w₀).pid ≡ pid = ap (λ v. v.pid) (view_enter pid w) in
      let owned : (view (bind os opts w₀).1).entries opts.path
          ≡ some (socket (some pid) opts.mode opts.chown) =
        standing ∙ ap (λ n. some (socket (some n) opts.mode opts.chown)) caller in
      let (rs, kept) = attempts-live opts pid pids (bind os opts w₀).1 (ap live owned) in
      (rs, kept opts.path ∙ owned)
