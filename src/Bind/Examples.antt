-- ===== src/Bind/Examples.antt =====
-- Tests of ipc/bind.rs and its theorems on a small file system.
use rust_commons.Prelude.{
  ℕ, ◌≡◌, refl, false, Option, none, some, [], ◌∷◌, ok, err, if◌then◌else◌, codes, str_eq, Str,
  ◌++◌, ◌==◌, arith,
}
use rust_commons.StdIo.{ErrorKind, other}
use rust_commons.FilePath.{FilePath, parent}
use rust_commons.Bind.{
  Os, BindOptions, BindError, location_of, bind, claim, probe, unlink_stale, make_parent,
  is_stale_socket_connect_error, set_up, apply_socket_perms,
}
use rust_commons.Bind.World.{Call, connecting, socket, World, kernel, guarded, as_process}
use rust_commons.Bind.Kernel.{live, running}
use rust_commons.Bind.Unix.{IsUnix, kernel_unix, guarded_unix}
use rust_commons.Bind.Singleton.{answer, attempts, AllTurnedAway, first_keeps_socket}
use rust_commons.Prelude.Decimal.{number_from}
use rust_commons.Bind.Display.{show_error, refusal_text}
use rust_commons.Bind.Race.{a_binds, b_binds, live_socket_stolen}

abbrev pub sock : FilePath
sock = codes "/run/d.sock"

abbrev pub opts : BindOptions
opts = record { path = sock; mode = 0o600; chown = none; process_name = codes "d" }

-- What a crash left, seen by process 10.
abbrev pub stale : World
stale = record {
  entries = λ p. if str_eq sock p then some (socket none 0o600 none) else none;
  pid = 10;
}

abbrev pub served : World
served = record {
  entries = λ p. if str_eq sock p then some (socket (some 42) 0o600 none) else none;
  pid = 10;
}

location_text : location_of sock 42 ≡ codes "/run/d.sock (pid 42)"
unfolding location_of
location_text = refl

stale_is_free : live (stale.entries sock) ≡ none
unfolding str_eq
stale_is_free = refl

served_by_42 : live (served.entries sock) ≡ some 42
unfolding str_eq
served_by_42 = refl

-- Process 11 belongs to another user, who may not connect to the sockets of this one.
abbrev two_users : Call → FilePath → World → Option ErrorKind
two_users connecting p w = if w.pid == 11 then some (other 13) else none
two_users _ p w = none

two_users_plain :
    (p : FilePath) (w : World) (pid : ℕ) (k : ErrorKind)
    → live (w.entries p) ≡ some pid
    → two_users connecting p w ≡ some k
    → is_stale_socket_connect_error k ≡ false
unfolding is_stale_socket_connect_error
two_users_plain p w pid k h e = ground arith

abbrev shared_host : Os World ℕ FilePath ErrorKind
shared_host = guarded (λ path. path) two_users

abbrev shared_host_unix : IsUnix shared_host
shared_host_unix = guarded_unix (λ path. path) two_users two_users_plain

first_binds :
    answer shared_host_unix.place (bind shared_host opts (as_process 10 stale)).0 ≡ ok sock
unfolding bind claim probe unlink_stale make_parent parent str_eq is_stale_socket_connect_error
    set_up apply_socket_perms
first_binds = refl

-- The second process is of the other user, the third of the same.
first_keeps_socket_example :
    AllTurnedAway shared_host shared_host_unix
      (running (λ path. path) opts 10)
      (attempts shared_host shared_host_unix opts
        (11 ∷ 12 ∷ [])
        (bind shared_host opts (as_process 10 stale)).1).0
    × ((attempts shared_host shared_host_unix opts
            (11 ∷ 12 ∷ [])
            (bind shared_host opts (as_process 10 stale)).1).1.entries
          sock
        ≡ some (socket (some 10) 0o600 none))
first_keeps_socket_example =
    first_keeps_socket shared_host shared_host_unix opts 10 (11 ∷ 12 ∷ []) stale stale_is_free
      first_binds

abbrev empty_disk : World
empty_disk = record { entries = λ p. none; pid = 10 }

live_socket_stolen_example :
    (answer kernel_unix.place (a_binds kernel kernel_unix.enter opts 10 11 empty_disk).0 ≡ ok sock)
    × (live (
          (kernel_unix.view (a_binds kernel kernel_unix.enter opts 10 11 empty_disk).1).entries
            sock)
        ≡ some 10)
    × (answer kernel_unix.place (b_binds kernel kernel_unix.enter opts 10 11 empty_disk).0
        ≡ ok sock)
    × (live (
          (kernel_unix.view (b_binds kernel kernel_unix.enter opts 10 11 empty_disk).1).entries
            sock)
        ≡ some 11)
live_socket_stolen_example =
    live_socket_stolen kernel kernel_unix opts (λ call w. refl) 10 11 empty_disk refl

refusal_text_example :
    (e : BindError) × (digits : Str) × (((bind kernel opts served).0 ≡ err e)
      × (show_error (λ k. codes "failed") kernel.display e
          ≡ codes "d"
            ++ (codes " already running at "
                ++ (sock ++ (codes " (pid " ++ (digits ++ codes ")")))))
      × (number_from 0 digits ≡ 42))
refusal_text_example =
    refusal_text kernel kernel_unix (λ k. codes "failed") opts served 42 served_by_42 refl refl
      (omega arith) (omega arith)
