-- ===== src/Bind.antt =====
-- ipc/bind.rs: the control socket as a singleton. The operating system enters as `Os`, the calls
-- that the code makes through `std::os::unix::net`, `std::fs` and nix; `World` is one such system.
mod Examples
mod UnitTests
pub mod World
pub mod Kernel
pub mod Unix
pub mod Singleton
pub mod Race
pub mod Display
use rust_commons.Prelude.{
  ℕ, zero, suc, ◌+◌, ◌/◌, ◌%◌, Bool, true, false, Option, none, some, List, [], ◌∷◌, ◌++◌, Result,
  ok, err, Io, pure, raise, lift, then_run, ◌>>=◌, ◌>>◌, with_err, map_err, if◌then◌else◌, ◌==◌,
  Str, codes, str_eq,
}
use rust_commons.Prelude.Decimal.{decimal_from}
use rust_commons.StdIo.{ErrorKind, not_found, connection_refused, other}
use rust_commons.FilePath.{FilePath, parent}
use rust_commons.Auth.{Credentials, peer_pid}

-- `process_name` is a `&'static str`.
pub record BindOptions : Type 0 where
  pub path : FilePath
  pub mode : ℕ
  pub chown : Option (ℕ × ℕ)
  pub process_name : Str

pub data BindError : Type 0 where
  already_running : (process_name location : Str) → (path : FilePath) → (pid : ℕ) → BindError
  io_at : (path : FilePath) → ErrorKind → BindError

-- `W` is the state of the system, `U` a connected stream, `L` a listener, `E` an error of nix.
pub record Os (W U L E : Type 0) : Type 0 where
  pub connect : FilePath → Io W ErrorKind U
  pub remove_file : FilePath → Io W ErrorKind (Unit {0})
  pub create_dir_all : FilePath → Io W ErrorKind (Unit {0})
  pub listen : FilePath → Io W ErrorKind L  -- `UnixListener::bind`
  pub permissions : FilePath → Io W ErrorKind ℕ  -- `metadata` and `permissions`, as mode bits
  pub set_permissions : FilePath → ℕ → Io W ErrorKind (Unit {0})
  pub chown : FilePath → (uid gid : ℕ) → Io W E (Unit {0})
  pub close : L → W → W  -- a listener goes out of scope
  pub creds : Credentials U E
  pub display : FilePath → Str  -- `Path::display`, which replaces what is not UTF-8

-- The pid as `{pid}` prints it; a `u32` has at most ten digits.
pub decimal : ℕ → Str
decimal n = decimal_from 10 n []

-- The `location` of a running peer, from its path as it is displayed.
pub location_of : (shown : Str) → (pid : ℕ) → Str
unfolding decimal
location_of shown pid =
    if pid == 0 then shown else shown ++ (codes " (pid " ++ (decimal pid ++ codes ")"))

unfoldable pub is_stale_socket_connect_error : ErrorKind → Bool
is_stale_socket_connect_error not_found = true
is_stale_socket_connect_error connection_refused = true
is_stale_socket_connect_error _ = false

module _ {W U L E : Type 0} (os : Os W U L E) where
  -- What `claim` makes of the answer to `connect`.
  abbrev pub after_connect :
      FilePath → (process_name : Str) → Result ErrorKind U × W → Result BindError (Unit {0}) × W
  after_connect path process_name (ok stream, w) =
      let pid = peer_pid os.creds stream in
      (err (already_running process_name (location_of (os.display path) pid) path pid), w)
  after_connect path process_name (err e, w) =
      if is_stale_socket_connect_error e then (ok tt, w) else (err (io_at path e), w)

  -- The first half of `claim`: the path is free, or holds what a crash left.
  unfoldable pub probe : FilePath → (process_name : Str) → Io W BindError (Unit {0})
  probe path process_name w = after_connect path process_name (os.connect path w)

  abbrev pub after_remove :
      FilePath → Result ErrorKind (Unit {0}) × W → Result BindError (Unit {0}) × W
  after_remove path (ok _, w) = (ok tt, w)
  after_remove path (err not_found, w) = (ok tt, w)
  after_remove path (err e, w) = (err (io_at path e), w)

  -- The second half of `claim`.
  unfoldable pub unlink_stale : FilePath → Io W BindError (Unit {0})
  unlink_stale path w = after_remove path (os.remove_file path w)

  unfoldable pub claim : FilePath → (process_name : Str) → Io W BindError (Unit {0})
  claim path process_name = do probe path process_name; unlink_stale path

  unfoldable pub apply_socket_perms : FilePath → (mode : ℕ) → Io W ErrorKind (Unit {0})
  apply_socket_perms socket_path mode = do
    perms ← os.permissions socket_path
    os.set_permissions socket_path mode

  unfoldable pub chown_socket : FilePath → (uid gid : ℕ) → Io W E (Unit {0})
  chown_socket socket_path uid gid = os.chown socket_path uid gid

  abbrev pub make_dir : Option FilePath → Io W BindError (Unit {0})
  make_dir none = pure tt
  make_dir (some []) = pure tt
  make_dir (some (c ∷ s)) = with_err (io_at (c ∷ s)) (os.create_dir_all (c ∷ s))

  unfoldable pub make_parent : FilePath → Io W BindError (Unit {0})
  make_parent path = make_dir (parent path)

  -- `io::Error::other` has the kind `Other`, here `other 0`.
  abbrev pub set_owner : FilePath → Option (ℕ × ℕ) → Io W BindError (Unit {0})
  set_owner path none = pure tt
  set_owner path (some (uid, gid)) =
      with_err (λ e. io_at path (other 0)) (chown_socket path uid gid)

  -- An early return behind `UnixListener::bind` drops the listener.
  abbrev pub or_close : L → Result BindError (Unit {0}) × W → Result BindError L × W
  or_close listener (ok _, w) = (ok listener, w)
  or_close listener (err e, w) = (err e, os.close listener w)

  unfoldable pub set_up : BindOptions → Io W BindError (Unit {0})
  set_up opts = do
    with_err (io_at opts.path) (apply_socket_perms opts.path opts.mode)
    set_owner opts.path opts.chown

  unfoldable pub bind : BindOptions → Io W BindError L
  bind opts = do
    make_parent opts.path
    claim opts.path opts.process_name
    listener ← with_err (io_at opts.path) (os.listen opts.path)
    λ w. or_close listener (set_up opts w)
