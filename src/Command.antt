-- ===== src/Command.antt =====
-- ipc/command.rs: the framed connection, commands and the router; with `IpcError` and the traits of
-- ipc/server.rs that commands and the server share.
-- A command and an `ErrorHandler` are supplied by the daemon, and a `Value` by serde_json: they are
-- records of what the code calls. Handlers get the shared state and the connection, and may change
-- both; a connection is served by one thread.
mod UnitTests
pub mod Lookup
pub mod Order
pub mod Display
use rust_commons.Prelude.{
  ℕ, Bool, true, false, Option, none, some, List, [], ◌∷◌, Result, ok, err, Io, lift, pure, raise,
  then_run, ◌>>=◌, Str, codes, str_eq, if◌then◌else◌,
}
use rust_commons.StdIo.{Read, Write}
use rust_commons.Frame.{FrameError, Serde, read_frame_with_limit, write_frame_with_limit}

-- `IpcError` of ipc/server.rs
pub data IpcError (J : Type 0) : Type 0 where
  frame : FrameError J → IpcError J
  other : Str → IpcError J
  hangup : IpcError J

pub data RejectReason : Type 0 where
  auth busy : RejectReason

-- `DuplicateCommand(name)`
pub record DuplicateCommand : Type 0 where
  pub name : Str

pub record Connection (U : Type 0) : Type 0 where
  pub stream : U
  pub max_frame : ℕ

-- `Connection::new`
abbrev pub connect_stream : {U : Type 0} → U → ℕ → Connection U
connect_stream stream max_frame = record { stream = stream; max_frame = max_frame }

-- What the code uses of `serde_json::Value`: the codec, `Value::get` and `Value::as_str`.
pub record Json (J V : Type 0) : Type 0 where
  pub serde : Serde J V
  pub get : V → Str → Option V
  pub as_str : V → Option Str

abbrev pub and_then : {A B : Type 0} → Option A → (A → Option B) → Option B
and_then none f = none
and_then (some a) f = f a

unfoldable pub json_type_field : {J V : Type 0} → Json J V → V → Option Str
json_type_field js body = and_then (js.get body (codes "type")) js.as_str

-- A step on the stream inside a connection.
abbrev pub on_stream : {U E A : Type 0} → (ℕ → Io U E A) → Io (Connection U) E A
on_stream step conn =
    let (r, stream') = step conn.max_frame conn.stream in (r, record conn { stream = stream' })

module _ {J T U : Type 0} (serde : Serde J T) where
  -- `Connection::reply`
  unfoldable pub reply : Write U → T → Io (Connection U) (FrameError J) (Unit {0})
  reply wr msg = on_stream (λ max_frame. write_frame_with_limit serde wr msg max_frame)

  -- `Connection::read_json`
  unfoldable pub read_json : Read U → Io (Connection U) (FrameError J) T
  read_json rd = on_stream (λ max_frame. read_frame_with_limit serde rd max_frame)

-- `Connection::read_value`
unfoldable pub read_value :
    {J V U : Type 0} → Json J V → Read U → Io (Connection U) (FrameError J) V
unfolding read_json
read_value js rd = read_json js.serde rd

-- What a handler works on: the daemon's shared state and the connection.
pub record Session (S U : Type 0) : Type 0 where
  pub state : S
  pub conn : Connection U

pub record Command (S U J V : Type 0) : Type 0 where
  pub name : Str
  pub execute : V → Io (Session S U) (IpcError J) (Unit {0})

-- `ErrorHandler` of ipc/server.rs
pub record ErrorHandler (S U J V : Type 0) : Type 0 where
  pub unknown : (type_name : Str) → (body : V) → Session S U → Session S U
  pub error : IpcError J → Session S U → Session S U
  pub reject : RejectReason → Session S U → Session S U

-- The `HashMap` of a router, from names to commands.
abbrev pub Commands : (S U J V : Type 0) → Type 0
Commands S U J V = List (Str × Command S U J V)

pub record Router (S U J V : Type 0) : Type 0 where
  pub commands : Commands S U J V

module _ {S U J V : Type 0} where
  -- `HashMap::get`
  unfoldable pub find_command : Str → Commands S U J V → Option (Command S U J V)
  find_command name [] = none
  find_command name ((n, c) ∷ rest) = if str_eq n name then some c else find_command name rest

  -- `Router::new`
  abbrev pub empty_router : Router S U J V
  empty_router = record { commands = [] }

  -- `Router::get`
  unfoldable pub get : Router S U J V → Str → Option (Command S U J V)
  unfolding find_command
  get r name = find_command name r.commands

  -- `Router::add`; the name is not in the map where `insert` is reached.
  unfoldable pub add : Command S U J V → Io (Router S U J V) DuplicateCommand (Unit {0})
  unfolding find_command
  add cmd r = elim (find_command cmd.name r.commands) [
    | some found ↦ (err (record { name = cmd.name }), r)
    | none ↦ (ok tt, record r { commands = (cmd.name, cmd) ∷ r.commands })
  ]
