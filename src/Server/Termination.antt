-- ===== src/Server/Termination.antt =====
-- A persistent session of ipc/server.rs comes to an end with the input of its peer.
use rust_commons.Prelude.{
  ℕ, zero, suc, ◌≤◌, ◌<◌, ◌≡◌, refl, ap, ◌∙◌, Option, none, some, Result, ok, err, Str, arith,
  length, Bool-cases, inl, inr,
}
use rust_commons.StdIo.{Delivers}
use rust_commons.Frame.{FrameError, read_frame_with_limit}
use rust_commons.Frame.Bounds.{read_frame_with_limit-shrinks}
use rust_commons.Command.{
  IpcError, frame, hangup, other, json_type_field, Session, Command, get, read_value,
  connect_stream, auth,
}
use rust_commons.Auth.{Auth, allows}
use rust_commons.Server.{
  SessionMode, one_shot, persistent, serve_session, handle_conn, Parts, read_request, dispatch_one,
  after_execute, run_command, run_named, run_request, after_dispatch, request_loop,
}

module _ {S U J V E : Type 0} (p : Parts S U J V E) (d : Delivers p.rd) where
  -- The bytes of the peer that are still to be read.
  abbrev pub unread : Session S U → ℕ
  unread s = length (d.bytes s.conn.stream)

  -- Commands and the error handler may read from the stream, and put nothing back.
  pub record IsConsuming : Type 0 where
    pub execute_le :
        (name : Str) (cmd : Command S U J V) (body : V) (s : Session S U)
        → get p.router name ≡ some cmd
        → unread (cmd.execute body s).1 ≤ unread s
    pub unknown_le :
        (name : Str) (body : V) (s : Session S U) → unread (p.hooks.unknown name body s) ≤ unread s
    pub error_le : (e : IpcError J) (s : Session S U) → unread (p.hooks.error e s) ≤ unread s

  read_request-shrinks :
      (s s' : Session S U) (body : V) → read_request p s ≡ (ok body, s') → unread s' < unread s
  unfolding read_request read_value
  read_request-shrinks s s' body h =
      let x = read_frame_with_limit p.js.serde p.rd s.conn.max_frame s.conn.stream in
      let came : x.0 ≡ ok body = cc in
      let left : s'.conn.stream ≡ x.1 = cc in
      let eaten =
        read_frame_with_limit-shrinks p.js.serde d s.conn.max_frame s.conn.stream x.1 body
          (rw (← came)) in
      rw left (omega arith)

module _ {S U J V E : Type 0} (p : Parts S U J V E) (d : Delivers p.rd)
    (quiet : IsConsuming p d) where
  open quiet use {execute_le, unknown_le, error_le}

  after_execute_le :
      (x : Result (IpcError J) (Unit {0}) × Session S U)
      → unread p d (after_execute p x).1 ≤ unread p d x.1
  after_execute_le (ok _, s) = omega arith
  after_execute_le (err hangup, s) = omega arith
  after_execute_le (err (frame e), s) = error_le (frame e) s
  after_execute_le (err (other m), s) = error_le (other m) s

  run_command_le :
      (name : Str) (body : V) (o : Option (Command S U J V)) (s : Session S U)
      → get p.router name ≡ o
      → unread p d (run_command p name body o s).1 ≤ unread p d s
  run_command_le name body none s e = unknown_le name body s
  run_command_le name body (some cmd) s e =
      omega (arith, after_execute_le (cmd.execute body s), execute_le name cmd body s e)

  run_named_le :
      (body : V) (o : Option Str) (s : Session S U)
      → unread p d (run_named p body o s).1 ≤ unread p d s
  run_named_le body none s = unknown_le _ body s
  run_named_le body (some name) s = run_command_le name body (get p.router name) s refl

  run_request-shrinks :
      (s s' : Session S U) (x : Result (FrameError J) V × Session S U)
      → read_request p s ≡ x
      → run_request p x ≡ (ok tt, s')
      → unread p d s' < unread p d s
  run_request-shrinks s s' (err e, s₁) r h = cc
  run_request-shrinks s s' (ok body, s₁) r h =
      let named = run_named_le body (json_type_field p.js body) s₁ in
      let last = ap (λ (x : Result (FrameError J) (Unit {0}) × Session S U). unread p d x.1) h in
      omega (arith, read_request-shrinks p d s s₁ body r, named, last)

  pub dispatch_one-shrinks :
      (s s' : Session S U) → dispatch_one p s ≡ (ok tt, s') → unread p d s' < unread p d s
  unfolding dispatch_one
  dispatch_one-shrinks s s' h = run_request-shrinks s s' (read_request p s) refl h

  after_dispatch_total :
      (fuel : ℕ) (s : Session S U) (x : Result (FrameError J) (Unit {0}) × Session S U)
      → dispatch_one p s ≡ x
      → ((s' : Session S U)
          → unread p d s' < unread p d s
          → (t : Session S U) × (request_loop p fuel s' ≡ some t))
      → (t : Session S U) × (request_loop p (suc fuel) s ≡ some t)
  unfolding request_loop
  after_dispatch_total fuel s (ok _, s') e more =
      let (t, h) = more s' (dispatch_one-shrinks s s' e) in
      (t, ap (λ x. after_dispatch p x (λ s'. request_loop p fuel s')) e ∙ h)
  after_dispatch_total fuel s (err x, s') e more =
      (_, ap (λ x. after_dispatch p x (λ s'. request_loop p fuel s')) e)

  -- A persistent session ends, for a stream that delivers its bytes and a daemon whose commands
  -- and error handler put none back: every request that is served takes bytes from the stream, so
  -- a fuel above the number of bytes that are unread is enough.
  pub request_loop_total :
      (fuel : ℕ) (s : Session S U)
      → unread p d s < fuel
      → (t : Session S U) × (request_loop p fuel s ≡ some t)
  request_loop_total zero s h = absurd (omega arith)
  request_loop_total (suc fuel) s h =
      after_dispatch_total fuel s (dispatch_one p s) refl
        (λ s' lt. request_loop_total fuel s' (omega arith))

  serve_session_total :
      (mode : SessionMode) (fuel : ℕ) (s : Session S U)
      → unread p d s < fuel
      → (t : Session S U) × (serve_session p mode fuel s ≡ some t)
  serve_session_total one_shot fuel s h = (_, refl)
  serve_session_total persistent fuel s h = request_loop_total fuel s h

  -- A connection is dealt with to its end, for a daemon whose commands and error handler put no byte
  -- back on the stream: if the peer in the end closes its side or the stream fails, so that every
  -- read returns, then, whoever the peer is and whatever it has sent before, with a fuel above the
  -- number of its bytes, `handle_conn` returns, in both session modes.
  pub handle_conn_total :
      (fuel : ℕ) (policy : Auth) (mode : SessionMode) (max_frame : ℕ) (stream : U) (state : S)
      → length (d.bytes stream) < fuel
      → (t : Session S U) × (handle_conn p fuel policy mode max_frame stream state ≡ some t)
  unfolding handle_conn
  handle_conn_total fuel policy mode max_frame stream state h =
      let s : Session S U = record { state = state; conn = connect_stream stream max_frame } in
      elim (Bool-cases (allows p.creds policy stream)) [
        | inl granted ↦ let (t, e) = serve_session_total mode fuel s h in (t, rw granted e)
        | inr refused ↦ (p.hooks.reject auth s, rw refused)
      ]
