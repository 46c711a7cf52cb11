-- ===== src/Bind/Unix/Steps.antt =====
-- The steps of `bind` of ipc/bind.rs on any Unix system look from outside as they do on the system of
-- World.
use rust_commons.Prelude.{
  ℕ, ◌≡◌, refl, ap, ◌∙◌, none, some, [], ◌∷◌, Option, Result, ok, err, Io, then_run, with_err,
  map_err, Bool-cases, inl, inr, Str,
}
use rust_commons.StdIo.{
  ErrorKind, not_found, connection_refused, unexpected_eof, connection_reset, other,
}
use rust_commons.FilePath.{FilePath}
use rust_commons.Auth.{peer_pid}
use rust_commons.Bind.{
  Os, BindOptions, BindError, after_connect, probe, after_remove, unlink_stale, make_dir,
  apply_socket_perms, chown_socket, set_owner, set_up, or_close, io_at,
  is_stale_socket_connect_error,
}
use rust_commons.Bind.World.{
  Call, connecting, removing, making_dir, listening, reading_mode, setting_mode, setting_owner,
  World, kernel, kernel_with, permit,
}
use rust_commons.Bind.Unix.{seen, same, IsUnix}

module _ {X A A' W : Type 0} (f : A → A') (view : W → World) where
  pub seen-then_run :
      {B B' : Type 0} (g : B → B') (x : Result X A × W) (y : Result X A' × World) (k : A → Io W X B)
      (l : A' → Io World X B')
      → seen f view x ≡ y
      → ((a : A) → seen g view (k a x.1) ≡ l (f a) (view x.1))
      → seen g view (then_run x k) ≡ then_run y l
  seen-then_run g (ok a, w) y k l h next = next a ∙ ap (λ z. then_run z l) h
  seen-then_run g (err e, w) y k l h next = ap (λ z. then_run z l) h

  pub seen-with_err :
      {Y : Type 0} (c : X → Y) (x : Result X A × W) (y : Result X A' × World)
      → seen f view x ≡ y
      → seen f view (map_err c x.0, x.1) ≡ (map_err c y.0, y.1)
  seen-with_err c (ok a, w) y h = ap (λ z. (map_err c z.0, z.1)) h
  seen-with_err c (err e, w) y h = ap (λ z. (map_err c z.0, z.1)) h

  -- The same for a step whose error says no more than that there is one.
  pub seen-relabelled :
      {X' Y : Type 0} (c : Y) (x : Result X A × W) (y : Result X' A' × World)
      → seen f view (map_err (λ e. tt) x.0, x.1) ≡ (map_err (λ e. tt) y.0, y.1)
      → seen f view (map_err (λ e. c) x.0, x.1) ≡ (map_err (λ e. c) y.0, y.1)
  seen-relabelled c (ok a, w) (ok b, v) h = ap (λ z. (map_err (λ (e : Unit {0}). c) z.0, z.1)) h
  seen-relabelled c (ok a, w) (err e, v) h = ap (λ z. (map_err (λ (e : Unit {0}). c) z.0, z.1)) h
  seen-relabelled c (err e, w) (ok b, v) h = ap (λ z. (map_err (λ (e : Unit {0}). c) z.0, z.1)) h
  seen-relabelled c (err e, w) (err e', v) h = ap (λ z. (map_err (λ (e : Unit {0}). c) z.0, z.1)) h

abbrev pub dir_of : Option FilePath → FilePath
dir_of none = []
dir_of (some dir) = dir

module _ {W U L E : Type 0} (os : Os W U L E) (unix : IsUnix os)
    (refused : Call → Option ErrorKind) where
  open unix use {
    view, refuses, place, connects, removes, makes_dir, listens, has_mode, sets_mode, sets_owner,
    closes,
  }

  pub seen-after_connect :
      (path : FilePath) (name : Str) (x : Result ErrorKind U × W)
      → seen same view (after_connect os path name x)
        ≡ after_connect (kernel_with os.display refused) path name (seen (peer_pid os.creds) view x)
  unfolding peer_pid
  seen-after_connect path name (ok u, w) = refl
  seen-after_connect path name (err e, w) = elim (Bool-cases (is_stale_socket_connect_error e)) [
    | inl h ↦ rw h
    | inr h ↦ rw h
  ]

  pub seen-after_remove :
      (path : FilePath) (x : Result ErrorKind (Unit {0}) × W)
      → seen same view (after_remove os path x)
        ≡ after_remove (kernel_with os.display refused) path (seen same view x)
  seen-after_remove path (ok u, w) = refl
  seen-after_remove path (err not_found, w) = refl
  seen-after_remove path (err connection_refused, w) = refl
  seen-after_remove path (err connection_reset, w) = refl
  seen-after_remove path (err unexpected_eof, w) = refl
  seen-after_remove path (err (other n), w) = refl

  -- Each step of `bind` looks from outside as it does on `kernel_with`, if the calls that are made
  -- are refused alike.
  pub seen-probe :
      (path : FilePath) (name : Str) (w : W)
      → refuses connecting path w ≡ refused connecting
      → seen same view (probe os path name w)
        ≡ probe (kernel_with os.display refused) path name (view w)
  unfolding probe
  seen-probe path name w e =
      seen-after_connect path name (os.connect path w)
      ∙ ap (λ x. after_connect (kernel_with os.display refused) path name x) (connects path w)
      ∙ ap
          (λ r.
            after_connect (kernel_with os.display refused) path name
              (permit r (kernel.connect path (view w)) (view w)))
          e

  pub seen-unlink_stale :
      (path : FilePath) (w : W)
      → refuses removing path w ≡ refused removing
      → seen same view (unlink_stale os path w)
        ≡ unlink_stale (kernel_with os.display refused) path (view w)
  unfolding unlink_stale
  seen-unlink_stale path w e =
      seen-after_remove path (os.remove_file path w)
      ∙ ap (λ x. after_remove (kernel_with os.display refused) path x) (removes path w)
      ∙ ap
          (λ r.
            after_remove (kernel_with os.display refused) path
              (permit r (kernel.remove_file path (view w)) (view w)))
          e

  pub seen-make_dir :
      (o : Option FilePath) (w : W)
      → refuses making_dir (dir_of o) w ≡ refused making_dir
      → seen same view (make_dir os o w) ≡ make_dir (kernel_with os.display refused) o (view w)
  seen-make_dir none w e = refl
  seen-make_dir (some []) w e = refl
  seen-make_dir (some (c ∷ s)) w e =
      seen-with_err same view _ _ _
        (makes_dir (c ∷ s) w ∙ ap (λ r. permit r (ok tt, view w) (view w)) e)

  pub seen-listen :
      (path : FilePath) (w : W)
      → refuses listening path w ≡ refused listening
      → seen place view (with_err (io_at path) (os.listen path) w)
        ≡ with_err (io_at path) ((kernel_with os.display refused).listen path) (view w)
  seen-listen path w e =
      seen-with_err place view _ _ _
        (listens path w ∙ ap (λ r. permit r (kernel.listen path (view w)) (view w)) e)

  pub seen-apply_socket_perms :
      (path : FilePath) (mode : ℕ) (w : W)
      → refuses reading_mode path w ≡ refused reading_mode
      → refuses setting_mode path (os.permissions path w).1 ≡ refused setting_mode
      → seen same view (apply_socket_perms os path mode w)
        ≡ apply_socket_perms (kernel_with os.display refused) path mode (view w)
  unfolding apply_socket_perms
  seen-apply_socket_perms path mode w e e' =
      seen-then_run (λ (n : ℕ). n) view same (os.permissions path w) _ _ _
        (has_mode path w ∙ ap (λ r. permit r (kernel.permissions path (view w)) (view w)) e)
        (λ n.
          sets_mode path mode (os.permissions path w).1
          ∙ ap
              (λ r.
                permit r (kernel.set_permissions path mode (view (os.permissions path w).1))
                  (view (os.permissions path w).1))
              e')

  pub seen-set_owner :
      (path : FilePath) (o : Option (ℕ × ℕ)) (w : W)
      → refuses setting_owner path w ≡ refused setting_owner
      → seen same view (set_owner os path o w)
        ≡ set_owner (kernel_with os.display refused) path o (view w)
  unfolding chown_socket
  seen-set_owner path none w e = refl
  seen-set_owner path (some (uid, gid)) w e =
      seen-relabelled same view (io_at path (other 0)) (os.chown path uid gid w)
        (permit (refused setting_owner) (kernel.chown path uid gid (view w)) (view w))
        (sets_owner path uid gid w
          ∙ ap
              (λ r.
                with_err (λ (e : ErrorKind). tt)
                  (λ (v : World). permit r (kernel.chown path uid gid v) v) (view w))
              e)

  pub seen-or_close :
      (l : L) (x : Result BindError (Unit {0}) × W)
      → seen place view (or_close os l x)
        ≡ or_close (kernel_with os.display refused) (place l) (seen same view x)
  seen-or_close l (ok u, w) = refl
  seen-or_close l (err e, w) = ap (λ z. (err e, z)) (closes l w)

  -- The calls of `set_up` from a state on are refused alike.
  pub record SetUpAlike (opts : BindOptions) (w : W) : Type 0 where
    pub modes : refuses reading_mode opts.path w ≡ refused reading_mode
    pub mode_sets :
        refuses setting_mode opts.path (os.permissions opts.path w).1 ≡ refused setting_mode
    pub owner_sets :
        refuses setting_owner opts.path (apply_socket_perms os opts.path opts.mode w).1
        ≡ refused setting_owner

  pub seen-finish :
      (opts : BindOptions) (l : L) (w : W)
      → SetUpAlike opts w
      → seen place view (or_close os l (set_up os opts w))
        ≡ or_close
            (kernel_with os.display refused)
            (place l)
            (set_up (kernel_with os.display refused) opts (view w))
  unfolding set_up
  seen-finish opts l w alike =
      seen-or_close l (set_up os opts w)
      ∙ ap (λ x. or_close (kernel_with os.display refused) (place l) x)
          (seen-then_run same view same
            (with_err (io_at opts.path) (apply_socket_perms os opts.path opts.mode) w) _ _ _
            (seen-with_err same view _ _ _
              (seen-apply_socket_perms opts.path opts.mode w alike.modes alike.mode_sets))
            (λ u.
              seen-set_owner opts.path opts.chown (apply_socket_perms os opts.path opts.mode w).1
                alike.owner_sets))
