-- ===== src/Server/Startup/Examples.antt =====
-- Tests of the start of a server in ipc/server.rs, on a small file system.
use rust_commons.Prelude.{
  ℕ, ◌+◌, ◌≤◌, ◌≡◌, refl, none, some, List, [], ◌∷◌, ok, err, Str, codes, str_eq, length, arith,
}
use rust_commons.StdIo.{other, ThreadBuilder}
use rust_commons.FilePath.{FilePath, parent}
use rust_commons.Auth.{unchecked}
use rust_commons.Bind.{
  BindOptions, bind, make_parent, claim, probe, is_stale_socket_connect_error, unlink_stale, set_up,
  apply_socket_perms,
}
use rust_commons.Bind.World.{World, kernel}
use rust_commons.Bind.Unix.{kernel_unix}
use rust_commons.Server.{AcceptPolicy, persistent}
use rust_commons.Server.Examples.{demo, three}
use rust_commons.Server.Accept.Cap.{in_hand}
use rust_commons.Server.Threads.{Action, accepts, proceeds, runs}
use rust_commons.Server.Threads.Refines.{place_of}
use rust_commons.Server.Startup.Running.{started_within_cap}
use rust_commons.Server.Startup.{
  Serving, from_listener, bind_server, serve_in_thread, serve_listener, serve_background,
}
use rust_commons.Server.Startup.Outcomes.{StartsAs, IsUnseen, serve_background-StartsAs}

abbrev opts : BindOptions
opts = record { path = codes "/run/d.sock"; mode = 0o600; chown = none; process_name = codes "d" }

abbrev policy : AcceptPolicy
policy = record { auth = unchecked; session = persistent; max_clients = some 2; max_frame = 16 }

abbrev empty_disk : World
empty_disk = record { entries = λ p. none; pid = 10 }

-- A system with threads to spare, and one with none left.
abbrev plenty : ThreadBuilder World
plenty = record { spawn = λ name w. (ok tt, w) }

abbrev exhausted : ThreadBuilder World
exhausted = record { spawn = λ name w. (err (other 11), w) }

exhausted_unseen : IsUnseen kernel kernel_unix exhausted opts policy demo.router demo.hooks 0
exhausted_unseen name w = refl

serve_background-StartsAs_example :
    StartsAs kernel kernel_unix exhausted opts policy demo.router demo.hooks 0 empty_disk
      (serve_background kernel exhausted opts policy demo.router demo.hooks 0 empty_disk)
serve_background-StartsAs_example =
    serve_background-StartsAs kernel kernel_unix exhausted opts policy demo.router demo.hooks 0
      exhausted_unseen empty_disk

-- The server that has been started, in a directory that was empty.
abbrev running : Serving ℕ (List ℕ) ℕ Str FilePath
running = record {
  server = from_listener opts.path opts.path policy demo.router demo.hooks;
  state = 0;
}

is_running :
    serve_background kernel plenty opts policy demo.router demo.hooks 0 empty_disk
    ≡ (ok running, (bind kernel opts empty_disk).1)
unfolding serve_background bind_server serve_in_thread from_listener bind make_parent parent str_eq
    claim probe is_stale_socket_connect_error unlink_stale set_up apply_socket_perms
is_running = refl

abbrev one_ping : List (Action (List ℕ))
one_ping = accepts three ∷ proceeds ∷ proceeds ∷ runs 0 ∷ runs 0 ∷ []

started_within_cap_example :
    let t = serve_listener demo.js demo.rd demo.creds running one_ping in
    (length t.threads + t.leaving + t.panicked + in_hand (place_of t.stage) ≡ t.clients)
    × (t.clients ≤ 2)
started_within_cap_example =
    started_within_cap kernel plenty opts policy demo.router demo.hooks 0 demo.js demo.rd demo.creds
      empty_disk (bind kernel opts empty_disk).1 running 2 one_ping is_running refl (omega arith)
