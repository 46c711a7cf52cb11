-- ===== src/Server/Startup.antt =====
-- How ipc/server.rs starts a server: `Server` and its methods, and the functions `serve` and
-- `serve_background`. A loop that runs is the value that `serve_listener` is called with; `System`
-- of Threads says what it does.
pub mod Outcomes
pub mod Running
mod Examples
use rust_commons.Prelude.{
  ℕ, Option, List, Result, ok, err, Io, pure, then_run, ◌>>=◌, ◌>>◌, with_err, Str, codes,
}
use rust_commons.StdIo.{Read, ErrorKind, ThreadBuilder}
use rust_commons.FilePath.{FilePath}
use rust_commons.Auth.{Auth, Credentials}
use rust_commons.Command.{Json, Router, ErrorHandler}
use rust_commons.Bind.{Os, BindOptions, BindError, io_at, bind}
use rust_commons.Server.{SessionMode, AcceptPolicy, Parts}
use rust_commons.Server.Threads.{Action, System, begin_with, run_actions}

-- `Server`; an `Arc` that is only read is its content.
pub record Server (S U J V L : Type 0) : Type 0 where
  pub listener : L
  pub path : FilePath
  pub max_clients : Option ℕ
  pub max_frame : ℕ
  pub auth : Auth
  pub session : SessionMode
  pub router : Router S U J V
  pub hooks : ErrorHandler S U J V

-- The arguments of `serve_listener`.
pub record Serving (S U J V L : Type 0) : Type 0 where
  pub server : Server S U J V L
  pub state : S

module _ {S U J V L : Type 0} where
  -- `Server::from_listener`
  unfoldable pub from_listener :
      L → FilePath → AcceptPolicy → Router S U J V → ErrorHandler S U J V → Server S U J V L
  from_listener listener path policy router hooks = record {
    listener = listener;
    path = path;
    max_clients = policy.max_clients;
    max_frame = policy.max_frame;
    auth = policy.auth;
    session = policy.session;
    router = router;
    hooks = hooks;
  }

  abbrev pub policy_of : Server S U J V L → AcceptPolicy
  policy_of server = record {
    auth = server.auth;
    session = server.session;
    max_clients = server.max_clients;
    max_frame = server.max_frame;
  }

  abbrev pub parts_of :
      {E : Type 0} → Json J V → Read U → Credentials U E → Server S U J V L → Parts S U J V E
  parts_of js rd creds server = record {
    js = js;
    rd = rd;
    creds = creds;
    router = server.router;
    hooks = server.hooks;
  }

  -- `serve_listener` on a schedule.
  unfoldable pub serve_listener :
      {E : Type 0}
      → Json J V
      → Read U
      → Credentials U E
      → Serving S U J V L
      → List (Action U)
      → System S U
  serve_listener js rd creds s actions =
      run_actions (parts_of js rd creds s.server) (policy_of s.server) actions (begin_with s.state)

  -- `Server::serve`
  abbrev pub serve_server : Server S U J V L → S → Serving S U J V L
  serve_server server state = record { server = server; state = state }

module _ {S U J V L W P E : Type 0} (os : Os W P L E) (threads : ThreadBuilder W) where
  -- `Server::bind`
  unfoldable pub bind_server :
      BindOptions
      → AcceptPolicy
      → Router S U J V
      → ErrorHandler S U J V
      → Io W BindError (Server S U J V L)
  unfolding from_listener
  bind_server opts policy router hooks = do
    listener ← bind os opts
    pure (from_listener listener opts.path policy router hooks)

  -- A closure that gets no thread is dropped, and its listener with it.
  abbrev pub after_spawn :
      Server S U J V L
      → S
      → Result ErrorKind (Unit {0}) × W
      → Result ErrorKind (Serving S U J V L) × W
  after_spawn server state (ok _, w) = (ok (serve_server server state), w)
  after_spawn server state (err e, w) = (err e, os.close server.listener w)

  -- `Server::serve_background`, with what the new thread runs
  unfoldable pub serve_in_thread : Server S U J V L → S → Io W ErrorKind (Serving S U J V L)
  serve_in_thread server state w = after_spawn server state (threads.spawn (codes "ctl") w)

  unfoldable pub serve_background :
      BindOptions
      → AcceptPolicy
      → Router S U J V
      → ErrorHandler S U J V
      → S
      → Io W BindError (Serving S U J V L)
  serve_background opts policy router hooks state = do
    server ← bind_server opts policy router hooks
    with_err (io_at (codes "ctl thread")) (serve_in_thread server state)

  -- `serve`, with the loop that its caller runs
  unfoldable pub serve :
      BindOptions
      → AcceptPolicy
      → Router S U J V
      → ErrorHandler S U J V
      → S
      → Io W BindError (Serving S U J V L)
  serve opts policy router hooks state = do
    server ← bind_server opts policy router hooks
    pure (serve_server server state)
