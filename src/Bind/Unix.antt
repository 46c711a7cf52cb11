-- ===== src/Bind/Unix.antt =====
-- What ipc/bind.rs relies on of a Unix system.
pub mod Steps
pub mod Calls
use rust_commons.Prelude.{
  ℕ, ◌≡◌, refl, ap, ◌∙◌, false, none, some, [], ◌∷◌, Option, Result, ok, err, Io, then_run,
  with_err, map_err, Bool-cases, inl, inr, Str,
}
use rust_commons.StdIo.{
  ErrorKind, not_found, connection_refused, unexpected_eof, connection_reset, other,
}
use rust_commons.FilePath.{FilePath, parent}
use rust_commons.Auth.{peer_pid}
use rust_commons.Bind.{
  Os, BindOptions, BindError, after_connect, probe, after_remove, unlink_stale, claim, make_dir,
  make_parent, apply_socket_perms, chown_socket, set_owner, set_up, or_close, bind, io_at,
  is_stale_socket_connect_error,
}
use rust_commons.Bind.World.{
  Call, connecting, removing, making_dir, listening, reading_mode, setting_mode, setting_owner,
  World, kernel, kernel_with, guarded, permit, as_process,
}
use rust_commons.Bind.Kernel.{live, make_dir_keeps}

-- The outcome of a call, with its result and the state as they are seen from outside.
abbrev pub seen : {X A B W : Type 0} → (A → B) → (W → World) → Result X A × W → Result X B × World
seen f view (ok a, w) = (ok (f a), view w)
seen f view (err e, w) = (err e, view w)

abbrev pub same : Unit {0} → Unit {0}
same u = u

-- What the code relies on of the calls of a Unix system. `view` is what a state shows of the files
-- and of the calling process. The system may refuse any call, with any error and for any reason (a
-- missing permission, a directory in the way, a file system that is full); then the files are as
-- before. A call that is not refused shows what `kernel` says. `connect` to a socket that is served
-- may be refused as well, but not as if nobody listened there.
pub record IsUnix {W U L E : Type 0} (os : Os W U L E) : Type 0 where
  pub view : W → World
  pub refuses : Call → FilePath → W → Option ErrorKind
  pub place : L → FilePath
  pub enter : ℕ → W → W  -- the same state, in another process
  pub view_enter : (pid : ℕ) (w : W) → view (enter pid w) ≡ as_process pid (view w)
  pub not_as_stale :
      (p : FilePath) (w : W) (pid : ℕ) (k : ErrorKind)
      → live ((view w).entries p) ≡ some pid
      → refuses connecting p w ≡ some k
      → is_stale_socket_connect_error k ≡ false
  pub connects :
      (p : FilePath) (w : W)
      → seen (peer_pid os.creds) view (os.connect p w)
        ≡ permit (refuses connecting p w) (kernel.connect p (view w)) (view w)
  pub removes :
      (p : FilePath) (w : W)
      → seen same view (os.remove_file p w)
        ≡ permit (refuses removing p w) (kernel.remove_file p (view w)) (view w)
  pub makes_dir :
      (p : FilePath) (w : W)
      → seen same view (os.create_dir_all p w)
        ≡ permit (refuses making_dir p w) (ok tt, view w) (view w)
  pub listens :
      (p : FilePath) (w : W)
      → seen place view (os.listen p w)
        ≡ permit (refuses listening p w) (kernel.listen p (view w)) (view w)
  pub has_mode :
      (p : FilePath) (w : W)
      → seen (λ (n : ℕ). n) view (os.permissions p w)
        ≡ permit (refuses reading_mode p w) (kernel.permissions p (view w)) (view w)
  pub sets_mode :
      (p : FilePath) (mode : ℕ) (w : W)
      → seen same view (os.set_permissions p mode w)
        ≡ permit (refuses setting_mode p w) (kernel.set_permissions p mode (view w)) (view w)
  pub sets_owner :
      (p : FilePath) (uid gid : ℕ) (w : W)
      → seen same view (with_err (λ e. tt) (os.chown p uid gid) w)
        ≡ with_err
            (λ e. tt)
            (λ v. permit (refuses setting_owner p w) (kernel.chown p uid gid v) v)
            (view w)
  pub closes : (l : L) (w : W) → view (os.close l w) ≡ kernel.close (place l) (view w)

pub seen-id : {X A : Type 0} (x : Result X A × World) → seen (λ (a : A). a) (λ (w : World). w) x ≡ x
seen-id (ok a, w) = refl
seen-id (err e, w) = refl

-- The system of World is one, whatever it refuses, if it does not call a live socket stale.
module _ (display : FilePath → Str) (refuses : Call → FilePath → World → Option ErrorKind)
    (plain : (p : FilePath) (w : World) (pid : ℕ) (k : ErrorKind)
      → live (w.entries p) ≡ some pid
      → refuses connecting p w ≡ some k
      → is_stale_socket_connect_error k ≡ false) where
  pub guarded_connects :
      (p : FilePath) (w : World)
      → seen
          (peer_pid (guarded display refuses).creds)
          (λ (w : World). w)
          ((guarded display refuses).connect p w)
        ≡ permit (refuses connecting p w) (kernel.connect p w) w
  unfolding peer_pid
  guarded_connects p w = seen-id (permit (refuses connecting p w) (kernel.connect p w) w)

  abbrev pub guarded_unix : IsUnix (guarded display refuses)
  guarded_unix = record {
    view = λ w. w;
    refuses = refuses;
    place = λ path. path;
    enter = as_process;
    view_enter = λ pid w. refl;
    not_as_stale = plain;
    connects = guarded_connects;
    removes = λ p w. seen-id (permit (refuses removing p w) (kernel.remove_file p w) w);
    makes_dir = λ p w. seen-id (permit (refuses making_dir p w) (ok tt, w) w);
    listens = λ p w. seen-id (permit (refuses listening p w) (kernel.listen p w) w);
    has_mode = λ p w. seen-id (permit (refuses reading_mode p w) (kernel.permissions p w) w);
    sets_mode =
        λ p mode w. seen-id (permit (refuses setting_mode p w) (kernel.set_permissions p mode w) w);
    sets_owner = λ p uid gid w. seen-id (
        with_err (λ e. tt) (λ v. permit (refuses setting_owner p w) (kernel.chown p uid gid v) v)
          w);
    closes = λ l w. refl;
  }

-- A system that refuses nothing calls no live socket stale.
pub grants_plain :
    (w : World) (p : FilePath) (pid : ℕ) (k : ErrorKind)
    → live (w.entries p) ≡ some pid
    → none ≡ some k
    → is_stale_socket_connect_error k ≡ false
grants_plain w p pid k h e = cc

abbrev pub kernel_unix : IsUnix kernel
kernel_unix = guarded_unix (λ path. path) (λ call p w. none) (λ p w. grants_plain w p)
