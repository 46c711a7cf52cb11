-- ===== src/Server.antt =====
-- ipc/server.rs: one connection, from the check of the peer to the end of its session. The accept
-- loop and the client cap stand in `Accept`.
pub mod Dispatch
mod Examples
pub mod Ends
pub mod Termination
pub mod Accept
pub mod Threads
pub mod Startup
pub mod Registration
pub mod Conversation
pub mod Replies
pub mod TestDaemon
use rust_commons.Prelude.{
  ℕ, zero, suc, Bool, true, false, Option, none, some, List, [], ◌∷◌, Result, ok, err, Io, Str,
  codes, if◌then◌else◌,
}
use rust_commons.StdIo.{Read, ErrorKind, unexpected_eof, connection_reset}
use rust_commons.Frame.{FrameError}
use rust_commons.Auth.{Auth, Credentials, allows}
use rust_commons.Command.{
  IpcError, frame, hangup, RejectReason, auth, Connection, connect_stream, Json, json_type_field,
  read_value, Session, Command, ErrorHandler, Router, get,
}

pub data SessionMode : Type 0 where
  one_shot persistent : SessionMode

-- `AcceptPolicy`
pub record AcceptPolicy : Type 0 where
  pub auth : Auth
  pub session : SessionMode
  pub max_clients : Option ℕ
  pub max_frame : ℕ

-- What a server is made of, but for its listener and path.
pub record Parts (S U J V E : Type 0) : Type 0 where
  pub js : Json J V
  pub rd : Read U
  pub creds : Credentials U E
  pub router : Router S U J V
  pub hooks : ErrorHandler S U J V

module _ {S U J V E : Type 0} (p : Parts S U J V E) where
  open p use {js, rd, creds, router, hooks}

  -- `conn.read_value()` inside a session
  unfoldable pub read_request : Io (Session S U) (FrameError J) V
  read_request s = let (r, c) = read_value js rd s.conn in (r, record s { conn = c })

  -- The end of `dispatch_one`: how the outcome of a command is passed on.
  abbrev pub after_execute :
      Result (IpcError J) (Unit {0}) × Session S U → Result (FrameError J) (Unit {0}) × Session S U
  after_execute (ok _, s) = (ok tt, s)
  after_execute (err hangup, s) = (err (FrameError.unexpected_eof 0 0), s)
  after_execute (err (frame e), s) = (ok tt, hooks.error (frame e) s)
  after_execute (err (IpcError.other m), s) = (ok tt, hooks.error (IpcError.other m) s)

  abbrev pub run_command :
      (name : Str) (body : V)
      → Option (Command S U J V)
      → Session S U
      → Result (FrameError J) (Unit {0}) × Session S U
  run_command name body none s = (ok tt, hooks.unknown name body s)
  run_command name body (some cmd) s = after_execute (cmd.execute body s)

  abbrev pub run_named :
      (body : V) → Option Str → Session S U → Result (FrameError J) (Unit {0}) × Session S U
  run_named body none s = (ok tt, hooks.unknown (codes "") body s)
  run_named body (some name) s = run_command name body (get router name) s

  abbrev pub run_request :
      Result (FrameError J) V × Session S U → Result (FrameError J) (Unit {0}) × Session S U
  run_request (err e, s) = (err e, s)
  run_request (ok body, s) = run_named body (json_type_field js body) s

  unfoldable pub dispatch_one : Io (Session S U) (FrameError J) (Unit {0})
  dispatch_one s = run_request (read_request s)

  -- The errors at which a persistent session ends without a word.
  unfoldable pub is_closed : FrameError J → Bool
  is_closed (FrameError.unexpected_eof _ _) = true
  is_closed (FrameError.io unexpected_eof) = true
  is_closed (FrameError.io connection_reset) = true
  is_closed _ = false

  -- What `handle_conn` does with an error of `dispatch_one`: in a one-shot session, and at the end
  -- of a persistent one.
  unfoldable pub end_one_shot : Result (FrameError J) (Unit {0}) × Session S U → Session S U
  end_one_shot (ok _, s) = s
  end_one_shot (err e, s) = hooks.error (frame e) s

  unfoldable pub end_persistent : FrameError J → Session S U → Session S U
  unfolding is_closed
  end_persistent e s = if is_closed e then s else hooks.error (frame e) s

  -- The arms of the `loop` of a persistent session.
  abbrev pub after_dispatch :
      Result (FrameError J) (Unit {0}) × Session S U
      → (Session S U → Option (Session S U))
      → Option (Session S U)
  after_dispatch (ok _, s) again = again s
  after_dispatch (err e, s) again = some (end_persistent e s)

  -- The `loop`, for at most `fuel` requests; `none` if it would go on.
  unfoldable pub request_loop : (fuel : ℕ) → Session S U → Option (Session S U)
  request_loop zero s = none
  request_loop (suc fuel) s = after_dispatch (dispatch_one s) (λ s'. request_loop fuel s')

  abbrev pub serve_session : SessionMode → (fuel : ℕ) → Session S U → Option (Session S U)
  serve_session one_shot fuel s = some (end_one_shot (dispatch_one s))
  serve_session persistent fuel s = request_loop fuel s

  unfoldable pub handle_conn :
      (fuel : ℕ) → Auth → SessionMode → (max_frame : ℕ) → U → S → Option (Session S U)
  unfolding request_loop
  handle_conn fuel policy mode max_frame stream state =
      let s : Session S U = record { state = state; conn = connect_stream stream max_frame } in
      if allows creds policy stream then serve_session mode fuel s else some (hooks.reject auth s)
