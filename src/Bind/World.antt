-- ===== src/Bind/World.antt =====
-- A file system as the kernel shows it to ipc/bind.rs: `connect` reaches the listener of a socket,
-- is refused by a socket with none and by any other file, and finds nothing at a free path.
use rust_commons.Prelude.{
  ℕ, Option, none, some, Result, ok, err, Io, Str, if◌then◌else◌, str_eq, ◌==◌,
}
use rust_commons.StdIo.{ErrorKind, not_found, connection_refused, other}
use rust_commons.FilePath.{FilePath}
use rust_commons.Bind.{Os}

pub data Node : Type 0 where
  socket : (listener : Option ℕ) → (mode : ℕ) → (owner : Option (ℕ × ℕ)) → Node
  plain : Node

-- The calls that the system may refuse to make for a process.
pub data Call : Type 0 where
  connecting removing making_dir listening reading_mode setting_mode setting_owner : Call

-- What stands at a path, other than a directory; `pid` is the process that makes the calls.
pub record World : Type 0 where
  pub entries : FilePath → Option Node
  pub pid : ℕ

abbrev pub put : FilePath → Option Node → World → World
put path node w = record w { entries = λ p. if str_eq path p then node else w.entries p }

-- The same files, seen by another process.
abbrev pub as_process : ℕ → World → World
as_process pid w = record w { pid = pid }

abbrev pub connect_node : Option Node → Result ErrorKind ℕ
connect_node none = err not_found
connect_node (some (socket (some pid) mode owner)) = ok pid
connect_node (some (socket none mode owner)) = err connection_refused
connect_node (some plain) = err connection_refused

abbrev pub remove_node : FilePath → Option Node → Io World ErrorKind (Unit {0})
remove_node path none w = (err not_found, w)
remove_node path (some n) w = (ok tt, put path none w)

-- The mode before `chmod`; 98 is EADDRINUSE.
abbrev pub listen_node : FilePath → Option Node → Io World ErrorKind FilePath
listen_node path none w = (ok path, put path (some (socket (some w.pid) 0o755 none)) w)
listen_node path (some n) w = (err (other 98), w)

abbrev pub mode_node : Option Node → Result ErrorKind ℕ
mode_node none = err not_found
mode_node (some (socket listener mode owner)) = ok mode
mode_node (some plain) = ok 0o644

abbrev pub chmod_node : FilePath → ℕ → Option Node → Io World ErrorKind (Unit {0})
chmod_node path mode none w = (err not_found, w)
chmod_node path mode (some (socket listener _ owner)) w =
    (ok tt, put path (some (socket listener mode owner)) w)
chmod_node path mode (some plain) w = (ok tt, w)

abbrev pub chown_node : FilePath → ℕ × ℕ → Option Node → World → World
chown_node path owner (some (socket listener mode _)) w =
    put path (some (socket listener mode (some owner))) w
chown_node path owner _ w = w

-- A call that is refused, for a missing permission or a directory in the way, fails with the error
-- that the system gives, and changes none of the entries.
abbrev pub permit :
    {A : Type 0}
    → Option ErrorKind
    → Result ErrorKind A × World
    → World
    → Result ErrorKind A × World
permit none x w = x
permit (some e) x w = (err e, w)

-- The file of a socket stays when its listener is closed; one that was unlinked has no file.
abbrev pub close_node : FilePath → Option Node → World → World
close_node path (some (socket (some pid) mode owner)) w =
    if pid == w.pid then put path (some (socket none mode owner)) w else w
close_node path _ w = w

-- The system that refuses what `refuses` says.
abbrev pub guarded :
    (display : FilePath → Str)
    → (refuses : Call → FilePath → World → Option ErrorKind) → Os World ℕ FilePath ErrorKind
guarded display refuses = record {
  connect = λ path w. permit (refuses connecting path w) (connect_node (w.entries path), w) w;
  remove_file = λ path w. permit (refuses removing path w) (remove_node path (w.entries path) w) w;
  create_dir_all = λ path w. permit (refuses making_dir path w) (ok tt, w) w;
  listen = λ path w. permit (refuses listening path w) (listen_node path (w.entries path) w) w;
  permissions = λ path w. permit (refuses reading_mode path w) (mode_node (w.entries path), w) w;
  set_permissions = λ path mode w.
      permit (refuses setting_mode path w) (chmod_node path mode (w.entries path) w) w;
  chown = λ path uid gid w.
      permit (refuses setting_owner path w) (ok tt, chown_node path (uid, gid) (w.entries path) w)
        w;
  close = λ path w. close_node path (w.entries path) w;
  creds = record {
    getsockopt = λ pid. ok (record { uid = 0; pid = pid });
    from_uid = λ uid. ok none;
  };
  display = display;
}

-- In one call of `bind` each of the calls is made at most once; these are refused.
abbrev pub kernel_with :
    (FilePath → Str) → (Call → Option ErrorKind) → Os World ℕ FilePath ErrorKind
kernel_with display refused = guarded display (λ call path w. refused call)

-- The system that refuses nothing, and displays a path as it is.
abbrev pub kernel : Os World ℕ FilePath ErrorKind
kernel = kernel_with (λ path. path) (λ call. none)
