-- ===== src/Server/Ends.antt =====
-- How a connection of ipc/server.rs ends: errors of `dispatch_one`, commands that hang up, and
-- peers that the policy does not permit.
use rust_commons.Prelude.{
  ℕ, suc, ◌≡◌, refl, ap, sym, ◌∙◌, ◌⊎◌, ◌↔◌, inl, inr, Option, none, some, Result, ok, err, Str,
  Bool-cases,
}
use rust_commons.Frame.{FrameError, unexpected_eof}
use rust_commons.Auth.{Auth, allows}
use rust_commons.Auth.Policy.{Permits, allows_iff}
use rust_commons.Command.{
  IpcError, frame, hangup, other, json_type_field, Session, Command, get, connect_stream, auth,
}
use rust_commons.Server.{
  Parts, SessionMode, one_shot, persistent, read_request, run_request, run_named, run_command,
  after_execute, dispatch_one, end_one_shot, end_persistent, after_dispatch, request_loop,
  serve_session, handle_conn,
}

module _ {S U J V E : Type 0} (p : Parts S U J V E) where
  -- The request at hand is for a command, and the command returns `IpcError::Hangup`.
  pub record HangsUp (s s' : Session S U) : Type 0 where
    pub body : V
    pub read : Session S U
    pub name : Str
    pub cmd : Command S U J V
    pub reads : read_request p s ≡ (ok body, read)
    pub named : json_type_field p.js body ≡ some name
    pub found : get p.router name ≡ some cmd
    pub hangs : cmd.execute body read ≡ (err hangup, s')

  HangsUp-dispatch_one :
      (s s' : Session S U) → HangsUp s s' → dispatch_one p s ≡ (err (unexpected_eof 0 0), s')
  unfolding dispatch_one
  HangsUp-dispatch_one s s' h =
      ap (run_request p) h.reads
      ∙ (ap (λ o. run_named p h.body o h.read) h.named
          ∙ (ap (λ o. run_command p h.name h.body o h.read) h.found ∙ ap (after_execute p) h.hangs))

  -- A command that hangs up ends a persistent session in the state that it left, and the error
  -- handler is not called.
  pub hangup_persistent :
      (s s' : Session S U) (fuel : ℕ)
      → HangsUp s s'
      → serve_session p persistent (suc fuel) s ≡ some s'
  unfolding request_loop end_persistent
  hangup_persistent s s' fuel h =
      ap (λ x. after_dispatch p x (λ t. request_loop p fuel t)) (HangsUp-dispatch_one s s' h)

  -- A command that hangs up in a one-shot session makes the server call the error handler with an
  -- unexpected end of the stream after 0 of 0 bytes.
  pub hangup_one_shot :
      (s s' : Session S U) (fuel : ℕ)
      → HangsUp s s'
      → serve_session p one_shot fuel s ≡ some (p.hooks.error (frame (unexpected_eof 0 0)) s')
  unfolding end_one_shot
  hangup_one_shot s s' fuel h = ap (λ x. some (end_one_shot p x)) (HangsUp-dispatch_one s s' h)

  after_execute_err :
      (x : Result (IpcError J) (Unit {0}) × Session S U) (e : FrameError J) (s' : Session S U)
      → after_execute p x ≡ (err e, s')
      → (x ≡ (err hangup, s')) × (e ≡ unexpected_eof 0 0)
  after_execute_err (ok _, s) e s' h = cc
  after_execute_err (err hangup, s) e s' h = (cc, cc)
  after_execute_err (err (frame y), s) e s' h = cc
  after_execute_err (err (other m), s) e s' h = cc

  module _ (s s' : Session S U) (e : FrameError J) where
    run_command_err :
        (body : V) (read : Session S U) (name : Str) (o : Option (Command S U J V))
        → read_request p s ≡ (ok body, read)
        → json_type_field p.js body ≡ some name
        → get p.router name ≡ o
        → run_command p name body o read ≡ (err e, s')
        → HangsUp s s' × (e ≡ unexpected_eof 0 0)
    run_command_err body read name none r n f h = cc
    run_command_err body read name (some cmd) r n f h =
        let (x, y) = after_execute_err (cmd.execute body read) e s' h in
        (
          record {
            body = body;
            read = read;
            name = name;
            cmd = cmd;
            reads = r;
            named = n;
            found = f;
            hangs = x;
          },
          y,
        )

    run_named_err :
        (body : V) (read : Session S U) (o : Option Str)
        → read_request p s ≡ (ok body, read)
        → json_type_field p.js body ≡ o
        → run_named p body o read ≡ (err e, s')
        → HangsUp s s' × (e ≡ unexpected_eof 0 0)
    run_named_err body read none r n h = cc
    run_named_err body read (some name) r n h =
        run_command_err body read name (get p.router name) r n refl h

    run_request_err :
        (x : Result (FrameError J) V × Session S U)
        → read_request p s ≡ x
        → run_request p x ≡ (err e, s')
        → (x ≡ (err e, s')) ⊎ (HangsUp s s' × (e ≡ unexpected_eof 0 0))
    run_request_err (err y, t) r h = inl (cc)
    run_request_err (ok body, t) r h =
        inr (run_named_err body t (json_type_field p.js body) r refl h)

  error_dispatch_one :
      (s s' : Session S U) (e : FrameError J)
      → (read_request p s ≡ (err e, s')) ⊎ (HangsUp s s' × (e ≡ unexpected_eof 0 0))
      → dispatch_one p s ≡ (err e, s')
  unfolding dispatch_one
  error_dispatch_one s s' e (inl broken) = ap (run_request p) broken
  error_dispatch_one s s' e (inr (h, same)) =
      HangsUp-dispatch_one s s' h ∙ ap (λ x. (err x, s')) (sym same)

  -- `dispatch_one` fails in exactly two cases: the request could not be read, with the error of the
  -- read; or its command hung up, with an unexpected end of the stream after 0 of 0 bytes, and
  -- without a call of the error handler. So a request with no name, one with an unknown name, and a
  -- command that fails in another way are no error of `dispatch_one`; and a persistent session takes
  -- no further request behind one that could not be read or that hung up.
  pub dispatch_one_err :
      (s s' : Session S U) (e : FrameError J)
      → ((dispatch_one p s ≡ (err e, s'))
          ↔ ((read_request p s ≡ (err e, s')) ⊎ (HangsUp s s' × (e ≡ unexpected_eof 0 0))))
        × ((read_request p s ≡ (err e, s')) ⊎ (HangsUp s s' × (e ≡ unexpected_eof 0 0))
            → (fuel : ℕ) → serve_session p persistent (suc fuel) s ≡ some (end_persistent p e s'))
  unfolding dispatch_one request_loop
  dispatch_one_err s s' e = (
    (λ h. run_request_err s s' e (read_request p s) refl h, error_dispatch_one s s' e),
    λ h fuel.
        ap (λ x. after_dispatch p x (λ t. request_loop p fuel t)) (error_dispatch_one s s' e h),
  )

  -- A connection is served exactly if the policy permits its peer. If not, the error handler gets
  -- the connection once, to reject it, with its stream unread, and no command runs.
  pub handle_conn_policy :
      (fuel : ℕ) (policy : Auth) (mode : SessionMode) (max_frame : ℕ) (stream : U) (state : S)
      → let s : Session S U = record { state = state; conn = connect_stream stream max_frame } in
        (Permits p.creds stream policy
          × (handle_conn p fuel policy mode max_frame stream state ≡ serve_session p mode fuel s))
        ⊎ (¬ Permits p.creds stream policy
            × (handle_conn p fuel policy mode max_frame stream state
                ≡ some (p.hooks.reject auth s)))
  unfolding handle_conn
  handle_conn_policy fuel policy mode max_frame stream state =
      elim (Bool-cases (allows p.creds policy stream)) [
        | inl granted ↦ inl ((allows_iff p.creds stream policy).0 granted, rw granted)
        | inr refused ↦
            inr (λ permitted. cc ((allows_iff p.creds stream policy).1 permitted), rw refused)
      ]
