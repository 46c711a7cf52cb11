-- ===== src/Server/TestDaemon.antt =====
-- The daemon of the tests of ipc/server.rs: the commands `Echo` and `HangupCmd` and the error
-- handler `Hooks`, over an `AtomicUsize`. The objects that `json!` builds are parameters.
mod Examples
mod UnitTests
pub mod Values
use rust_commons.Prelude.{
  false, ℕ, ◌≡◌, ◌≢◌, refl, sym, ap, ◌∙◌, Bool, Option, none, some, List, [], ◌∷◌, ◌++◌, Result, ok,
  err, Io, map_err, raise, then_run, ◌>>=◌, ◌>>◌, Str, codes, str_eq, str_eq_refl, str_eq_ne, subst,
  if◌then◌else◌, inl, inr, Bool-cases,
}
use rust_commons.StdIo.{Read, Write}
use rust_commons.Frame.Display.{Texts}
use rust_commons.Command.{
  IpcError, frame, hangup, RejectReason, auth, busy, Connection, Json, json_type_field, reply,
  Session, Command, ErrorHandler, Router, Commands, get, find_command, empty_router, add,
}
use rust_commons.Command.Display.{show_ipc_error}
use rust_commons.Auth.{Credentials}
use rust_commons.Server.{Parts, run_named, after_execute}
use rust_commons.Server.Accept.{fetch_add}
use rust_commons.Server.Replies.{IsAnswered, AllAnswered}
use rust_commons.Server.Replies.Farewell.{IsFarewell}

-- `json!({"error": text})` and `json!({"ok": true})`
pub record Objects (V : Type 0) : Type 0 where
  pub error_object : Str → V
  pub ok_object : V

module _ {J U V : Type 0} (js : Json J V) (wr : Write U) (texts : Texts J) (json : Objects V) where
  open json use {error_object, ok_object}

  -- `conn.reply(&msg).map_err(IpcError::from)`
  abbrev pub reply_from : V → Io (Session ℕ U) (IpcError J) (Unit {0})
  reply_from msg s =
      let (r, c) = reply js.serde wr msg s.conn in (map_err frame r, record s { conn = c })

  -- `let _ = conn.reply(&msg)`
  abbrev pub reply_ignored : V → Session ℕ U → Session ℕ U
  reply_ignored msg s = record s { conn = (reply js.serde wr msg s.conn).1 }

  -- `impl Command for Echo`
  abbrev pub echo : Command ℕ U J V
  echo = record {
    name = codes "echo";
    execute = λ body s. reply_from body (record s { state = fetch_add s.state });
  }

  -- `impl Command for HangupCmd`
  abbrev pub hangup_cmd : Command ℕ U J V
  hangup_cmd = record {
    name = codes "done";
    execute = λ body. reply_from ok_object >> raise hangup;
  }

  abbrev pub reject_code : RejectReason → Str
  reject_code auth = codes "auth"
  reject_code busy = codes "busy"

  -- `impl ErrorHandler for Hooks`
  abbrev pub hooks : ErrorHandler ℕ U J V
  hooks = record {
    unknown = λ type_name body. reply_ignored (error_object (codes "unknown:" ++ type_name));
    error = λ e. reply_ignored (error_object (show_ipc_error texts e));
    reject = λ reason. reply_ignored (error_object (reject_code reason));
  }

  -- What a request of that name comes to in a daemon with the command `Echo`.
  abbrev pub named_effect : Option Str → ℕ → ℕ
  named_effect none n = n
  named_effect (some name) n = if str_eq (codes "echo") name then fetch_add n else n

  abbrev pub named_answer : V → Option Str → V
  named_answer body none = error_object (codes "unknown:" ++ codes "")
  named_answer body (some name) =
      if str_eq (codes "echo") name then body else error_object (codes "unknown:" ++ name)

  abbrev pub echo_effect : V → ℕ → ℕ
  echo_effect body n = named_effect (json_type_field js body) n

  abbrev pub echo_answer : V → ℕ → V
  echo_answer body n = named_answer body (json_type_field js body)

  abbrev pub daemon : {E : Type 0} → Read U → Credentials U E → Command ℕ U J V → Parts ℕ U J V E
  daemon rd creds cmd = record {
    js = js;
    rd = rd;
    creds = creds;
    router = (add cmd empty_router).1;
    hooks = hooks;
  }

  reply_from_ok :
      (msg : V) (s : Session ℕ U) (c : Connection U)
      → reply js.serde wr msg s.conn ≡ (ok tt, c)
      → reply_from msg s ≡ (ok tt, record s { conn = c })
  reply_from_ok msg s c h = ap (λ x. (map_err frame x.0, record s { conn = x.1 })) h

  reply_ignored_ok :
      (msg : V) (s : Session ℕ U) (c : Connection U)
      → reply js.serde wr msg s.conn ≡ (ok tt, c)
      → reply_ignored msg s ≡ record s { conn = c }
  reply_ignored_ok msg s c h = ap (λ x. record s { conn = x.1 }) h

  module _ {E : Type 0} (rd : Read U) (creds : Credentials U E) where
    named_replies :
        (body : V) (o : Option Str) (s : Session ℕ U) (c : Connection U)
        → reply js.serde wr (named_answer body o) s.conn ≡ (ok tt, c)
        → run_named (daemon rd creds echo) body o s
          ≡ (ok tt, record { state = named_effect o s.state; conn = c })
    unfolding add get find_command
    named_replies body none s c h = ap (λ x. (ok tt, x)) (reply_ignored_ok _ s c h)
    named_replies body (some name) s c h = elim (Bool-cases (str_eq (codes "echo") name)) [
      | inl same ↦ rw same (
          ap (λ x. after_execute (daemon rd creds echo) x)
            (reply_from_ok body (record s { state = fetch_add s.state }) c
              (subst
                (λ b.
                  reply js.serde wr (if b then body else error_object (codes "unknown:" ++ name))
                    s.conn
                  ≡ (ok tt, c))
                same h)))
      | inr other ↦ rw other (
          ap (λ x. (ok tt, x))
            (reply_ignored_ok _ s c (
              subst
                (λ b.
                  reply js.serde wr (if b then body else error_object (codes "unknown:" ++ name))
                    s.conn
                  ≡ (ok tt, c))
                other h)))
    ]

    pub echo_answering :
        (bodies : List V) → AllAnswered (daemon rd creds echo) wr echo_effect echo_answer bodies
    echo_answering [] = tt
    echo_answering (body ∷ bodies) =
        (record { replies = named_replies body (json_type_field js body) }, echo_answering bodies)

    -- A name that is not the one of the command is unknown.
    pub unknown-IsAnswered :
        (cmd : Command ℕ U J V) (body : V) (name : Str)
        → json_type_field js body ≡ some name
        → str_eq cmd.name name ≡ false
        → IsAnswered
            (daemon rd creds cmd)
            wr
            (λ b n. n)
            (λ b n. error_object (codes "unknown:" ++ name))
            body
    unfolding add get find_command
    unknown-IsAnswered cmd body name named other = record {
      replies = λ s c h. rw (named, other) (ap (λ x. (ok tt, x)) (reply_ignored_ok _ s c h));
    }

    -- A request for `done` is a farewell.
    pub done_farewell :
        (last : V)
        → json_type_field js last ≡ some (codes "done")
        → IsFarewell (daemon rd creds hangup_cmd) wr last ok_object (λ n. n)
    unfolding add get find_command str_eq
    done_farewell last named = record {
      name = codes "done";
      cmd = hangup_cmd;
      named = named;
      found = refl;
      hangs = λ s c h. ap (λ x. then_run x (λ _. raise hangup)) (reply_from_ok ok_object s c h);
    }
