-- ===== src/Server/Startup/Outcomes.antt =====
-- What starting a server in the background comes to, on a Unix system.
use rust_commons.Prelude.{
  ℕ, ◌≡◌, inl, inr, refl, ap, sym, subst, ◌∙◌, Option, none, some, Result, ok, err, map_err, Str,
  codes, Option-cases,
}
use rust_commons.StdIo.{ErrorKind, ThreadBuilder}
use rust_commons.FilePath.{FilePath}
use rust_commons.Command.{Router, ErrorHandler}
use rust_commons.Bind.{Os, BindOptions, BindError, io_at, bind}
use rust_commons.Bind.World.{socket, kernel}
use rust_commons.Bind.Kernel.{
  live, IsTurnedAway, told, blocked, running, FreeEnd, bound, failed, kernel_closed,
}
use rust_commons.Bind.Unix.{IsUnix}
use rust_commons.Bind.Singleton.{answer, answer-eq-err, end_of, bind_live, bind_end}
use rust_commons.Server.{AcceptPolicy}
use rust_commons.Server.Startup.{
  Server, Serving, policy_of, from_listener, bind_server, after_spawn, serve_in_thread,
  serve_background,
}

answer-eq-ok :
    {X A B : Type 0} (f : A → B) (r : Result X A) (b : B)
    → answer f r ≡ ok b
    → (a : A) × (r ≡ ok a) × (f a ≡ b)
answer-eq-ok f (ok a) b h = (a, refl, cc)
answer-eq-ok f (err e) b h = cc

module _ {S U J V L W P E : Type 0} (os : Os W P L E) (unix : IsUnix os) (threads : ThreadBuilder W)
    (opts : BindOptions) (policy : AcceptPolicy) (router : Router S U J V)
    (hooks : ErrorHandler S U J V) (state : S) where
  open unix use {view, place, closes}

  -- What the listeners of a path are before and after.
  abbrev pub serves : W → Option ℕ
  serves w = live ((view w).entries opts.path)

  -- The ways in which `serve_background` ends: with the path served by another process and all left
  -- as it was; with nobody there and a call of `bind` that has failed; with no thread; or with a
  -- server that has the given policy, commands and handler, and listens at the path for the process
  -- that called. Where it fails by itself, nobody serves the path.
  pub data StartsAs (w : W) (r : Result BindError (Serving S U J V L) × W) : Type 0 where
    refused :
        (pid : ℕ) (e : BindError)
        → serves w ≡ some pid
        → r.0 ≡ err e
        → IsTurnedAway (running os.display opts pid) (err e)
        → view r.1 ≡ view w
        → StartsAs w r
    not_bound :
        (q : FilePath) (k : ErrorKind)
        → serves w ≡ none
        → r.0 ≡ err (io_at q k)
        → serves r.1 ≡ none
        → StartsAs w r
    no_thread :
        (e : ErrorKind)
        → serves w ≡ none
        → r.0 ≡ err (io_at (codes "ctl thread") e)
        → serves r.1 ≡ none
        → StartsAs w r
    started :
        (server : Server S U J V L)
        → serves w ≡ none
        → r.0 ≡ ok (record { server = server; state = state })
        → policy_of server ≡ policy
        → server.router ≡ router
        → server.hooks ≡ hooks
        → server.path ≡ opts.path
        → place server.listener ≡ opts.path
        → serves r.1 ≡ some (view w).pid
        → StartsAs w r

  -- A new thread shows nothing of itself in the file system.
  abbrev pub IsUnseen : Type 0
  IsUnseen = (name : Str) (w : W) → view (threads.spawn name w).1 ≡ view w

  abbrev start : W → Result BindError (Serving S U J V L) × W
  start w = serve_background os threads opts policy router hooks state w

  bind_error :
      (w : W) (e : BindError) → (bind os opts w).0 ≡ err e → start w ≡ (err e, (bind os opts w).1)
  unfolding serve_background bind_server
  bind_error w e h = rw h

  bind_done :
      (w : W) (l : L)
      → (bind os opts w).0 ≡ ok l
      → start w ≡ (
          let x =
            serve_in_thread os threads
              (from_listener l opts.path policy router hooks)
              state
              (bind os opts w).1 in
          (map_err (io_at (codes "ctl thread")) x.0, x.1))
  unfolding serve_background bind_server
  bind_done w l h = rw h

  module _ (unseen : IsUnseen) (w : W) (free : serves w ≡ none) where
    abbrev w₁ : W
    w₁ = (bind os opts w).1

    -- What stands at the path when there is a listener.
    abbrev IsServed : W → Type 0
    IsServed w' =
        (view w').entries opts.path ≡ some (socket (some (view w').pid) opts.mode opts.chown)

    spawned :
        (l : L) (y : Result ErrorKind (Unit {0}) × W)
        → place l ≡ opts.path
        → (view w₁).pid ≡ (view w).pid
        → IsServed w₁
        → view y.1 ≡ view w₁
        → StartsAs w (
            let x =
              after_spawn os threads (from_listener l opts.path policy router hooks) state y in
            (map_err (io_at (codes "ctl thread")) x.0, x.1))
    unfolding from_listener
    spawned l (ok u, w₂) at pid served same =
        started (from_listener l opts.path policy router hooks) free refl refl refl refl refl at
          (rw (same, served, pid))
    spawned l (err e, w₂) at pid served same =
        let v : view (os.close l w₂) ≡ kernel.close opts.path (view w₁) =
          closes l w₂
          ∙ ap (λ q. kernel.close q (view w₂)) at
          ∙ ap (λ z. kernel.close opts.path z) same in
        no_thread e free refl (
          ap (λ z. live (z.entries opts.path)) v
          ∙ kernel_closed opts.path (view w₁) opts.mode opts.chown served)

    outcome : FreeEnd opts (view w) (end_of os unix opts w) → StartsAs w (start w)
    unfolding serve_in_thread
    outcome (bound done standing apart pid) =
        let (l, made, at) = answer-eq-ok place (bind os opts w).0 opts.path done in
        let served : IsServed w₁ = rw pid standing in
        subst (StartsAs w) (sym (bind_done w l made))
          (spawned l (threads.spawn (codes "ctl") w₁) at pid served (unseen (codes "ctl") w₁))
    outcome (failed q k broken idle) =
        let e = answer-eq-err place (bind os opts w).0 _ broken in
        subst (StartsAs w) (sym (bind_error w (io_at q k) e))
          (not_bound q k free refl idle.unserved)

  turned_away :
      (w : W) (pid : ℕ)
      → serves w ≡ some pid
      → (view (bind os opts w).1 ≡ view w)
      → IsTurnedAway (running os.display opts pid) (answer place (bind os opts w).0)
      → StartsAs w (start w)
  turned_away w pid served same_files (told r) =
      let e = answer-eq-err place (bind os opts w).0 _ r in
      subst (StartsAs w) (sym (bind_error w _ e))
        (refused pid (running os.display opts pid) served refl (told refl) same_files)
  turned_away w pid served same_files (blocked q k r) =
      let e = answer-eq-err place (bind os opts w).0 _ r in
      subst (StartsAs w) (sym (bind_error w _ e))
        (refused pid (io_at q k) served refl (blocked q k refl) same_files)

  -- On a Unix system, whatever it refuses, where a new thread shows nothing of itself in the file
  -- system, `serve_background` comes to one of four ends. Where a process serves the path, the error
  -- is that this process is running, or that of a call that was refused, and no file is changed.
  -- Else, either a call of `bind` fails, with an I/O error, or no thread can be spawned, with an
  -- error at "ctl thread", and in both cases nobody serves the path; or the server that runs has the
  -- policy, commands and handler that were given, its listener and its path are those of the
  -- options, and the caller serves the path.
  pub serve_background-StartsAs : IsUnseen → (w : W) → StartsAs w (start w)
  serve_background-StartsAs unseen w = elim (Option-cases (serves w)) [
    | inl free ↦ outcome unseen w free (bind_end os unix opts w free)
    | inr (pid, served) ↦
        let (r, e) = bind_live os unix opts w pid served in turned_away w pid served e r
  ]
