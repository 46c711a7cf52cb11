-- ===== src/Server/Registration.antt =====
-- A server of ipc/server.rs knows its commands by `Router::get` alone.
use rust_commons.Prelude.{
  ℕ, zero, suc, ◌≡◌, refl, ap, ◌∙◌, Option, none, some, List, Result, ok, err, Str, Permᴰ,
  if◌then◌else◌,
}
use rust_commons.Frame.{FrameError}
use rust_commons.Auth.{Auth, allows}
use rust_commons.Command.{Command, Router, Session, connect_stream, json_type_field, auth}
use rust_commons.Command.Order.{add_all, SameCommands, AllDistinct, add_all-perm}
use rust_commons.Server.{
  SessionMode, one_shot, persistent, Parts, dispatch_one, run_request, read_request, run_named,
  run_command, end_one_shot, end_persistent, after_dispatch, request_loop, serve_session,
  handle_conn,
}

module _ {S U J V E : Type 0} (p : Parts S U J V E) where
  -- The same server with another router.
  abbrev pub with_router : Router S U J V → Parts S U J V E
  with_router r = record p { router = r }

  module _ (r q : Router S U J V) (same : SameCommands r q) where
    run_named-same :
        (body : V) (o : Option Str) (s : Session S U)
        → run_named (with_router r) body o s ≡ run_named (with_router q) body o s
    run_named-same body none s = refl
    run_named-same body (some name) s = ap (λ o. run_command p name body o s) (same name)

    run_request-same :
        (x : Result (FrameError J) V × Session S U)
        → run_request (with_router r) x ≡ run_request (with_router q) x
    run_request-same (err e, s) = refl
    run_request-same (ok body, s) = run_named-same body (json_type_field p.js body) s

    dispatch_one-same :
        (s : Session S U) → dispatch_one (with_router r) s ≡ dispatch_one (with_router q) s
    unfolding dispatch_one read_request
    dispatch_one-same s = run_request-same (read_request p s)

    after_dispatch-same :
        (x : Result (FrameError J) (Unit {0}) × Session S U)
        (f g : Session S U → Option (Session S U))
        → ((s : Session S U) → f s ≡ g s)
        → after_dispatch (with_router r) x f ≡ after_dispatch (with_router q) x g
    unfolding end_persistent
    after_dispatch-same (ok _, s) f g h = h s
    after_dispatch-same (err e, s) f g h = refl

    request_loop-same :
        (fuel : ℕ) (s : Session S U)
        → request_loop (with_router r) fuel s ≡ request_loop (with_router q) fuel s
    unfolding request_loop
    request_loop-same zero s = refl
    request_loop-same (suc fuel) s =
        ap (λ x. after_dispatch (with_router r) x (λ s'. request_loop (with_router r) fuel s'))
          (dispatch_one-same s)
        ∙ after_dispatch-same (dispatch_one (with_router q) s) _ _ (request_loop-same fuel)

    serve_session-same :
        (mode : SessionMode) (fuel : ℕ) (s : Session S U)
        → serve_session (with_router r) mode fuel s ≡ serve_session (with_router q) mode fuel s
    unfolding end_one_shot
    serve_session-same one_shot fuel s = ap (λ x. some (end_one_shot p x)) (dispatch_one-same s)
    serve_session-same persistent fuel s = request_loop-same fuel s

    handle_conn-same :
        (fuel : ℕ) (policy : Auth) (mode : SessionMode) (max_frame : ℕ) (stream : U) (state : S)
        → handle_conn (with_router r) fuel policy mode max_frame stream state
          ≡ handle_conn (with_router q) fuel policy mode max_frame stream state
    unfolding handle_conn
    handle_conn-same fuel policy mode max_frame stream state =
        let s : Session S U = record { state = state; conn = connect_stream stream max_frame } in
        ap (λ x. if allows p.creds policy stream then x else some (p.hooks.reject auth s))
          (serve_session-same mode fuel s)

  -- A server whose commands have distinct names serves every connection alike in whatever order they
  -- were registered, behind the same first registrations.
  pub registration_order :
      (cs ds : List (Command S U J V))
      → Permᴰ cs ds
      → AllDistinct cs
      → (first : Router S U J V) (fuel : ℕ) (policy : Auth) (mode : SessionMode) (max_frame : ℕ)
        (stream : U) (state : S)
      → handle_conn (with_router (add_all cs first)) fuel policy mode max_frame stream state
        ≡ handle_conn (with_router (add_all ds first)) fuel policy mode max_frame stream state
  registration_order cs ds perm d first =
      handle_conn-same (add_all cs first) (add_all ds first) (add_all-perm perm d first)
