-- ===== src/Server/Threads/Solo.antt =====
-- A thread that runs alone does what `handle_conn` of ipc/server.rs does.
use rust_commons.Prelude.{
  ℕ, zero, suc, ◌≡◌, refl, ap, ◌∙◌, Option, none, some, Result, ok, err, arith, Bool-cases, inl,
  inr,
}
use rust_commons.Frame.{FrameError}
use rust_commons.Auth.{allows}
use rust_commons.Command.{Session}
use rust_commons.Server.{
  SessionMode, one_shot, persistent, AcceptPolicy, Parts, dispatch_one, after_dispatch,
  request_loop, serve_session, handle_conn,
}
use rust_commons.Server.Threads.{
  advance_in, serving, Thread, advance, serve_turn, after_round, new_thread, session_of,
}

module _ {S U J V E : Type 0} (p : Parts S U J V E) (policy : AcceptPolicy) where
  open p use {creds, hooks}

  -- At most `n` actions of one thread, with no other in between; `none` if it has returned.
  abbrev pub go_on : {A : Type 0} → (Thread U → S → A) → (S → A) → Option (Thread U) × S → A
  go_on more done (some t, state) = more t state
  go_on more done (none, state) = done state

  unfoldable pub run_alone : ℕ → Thread U → S → Option (Thread U) × S
  run_alone zero t state = (some t, state)
  run_alone (suc n) t state =
      go_on (λ t' state'. run_alone n t' state') (λ state'. (none, state'))
        (advance p policy t state)

  abbrev resume : ℕ → Option (Thread U) × S → Option (Thread U) × S
  resume n x = go_on (λ t state. run_alone n t state) (λ state. (none, state)) x

  run_alone-suc :
      (n : ℕ) (t : Thread U) (state : S) (x : Option (Thread U) × S)
      → advance p policy t state ≡ x
      → run_alone (suc n) t state ≡ resume n x
  unfolding run_alone
  run_alone-suc n t state x e = ap (resume n) e

  advance-serving :
      (t : Thread U) (state : S) (mode : SessionMode)
      → policy.session ≡ mode
      → t.phase ≡ serving
      → advance p policy t state ≡ serve_turn p policy mode t state
  unfolding advance
  advance-serving t state mode m at =
      ap (λ ph. advance_in p policy ph t state) at ∙ ap (λ m. serve_turn p policy m t state) m

  Ends : Thread U → S → Session S U → Type 0
  Ends t state last = (n : ℕ) × (run_alone n t state ≡ (none, last.state))

  persistent_round :
      (fuel : ℕ) (t : Thread U) (state : S) (last : Session S U)
      (x : Result (FrameError J) (Unit {0}) × Session S U)
      → policy.session ≡ persistent
      → t.phase ≡ serving
      → dispatch_one p (session_of p policy t.conn state) ≡ x
      → after_dispatch p x (λ s. request_loop p fuel s) ≡ some last
      → ((t' : Thread U) (state' : S)
          → t'.phase ≡ serving
          → request_loop p fuel (session_of p policy t'.conn state') ≡ some last
          → Ends t' state' last)
      → Ends t state last
  unfolding Ends run_alone
  persistent_round fuel t state last (ok u, s) mode at d h more =
      let (n, e) = more (record t { conn = s.conn }) s.state at h in
      (
        suc n,
        run_alone-suc n t state _
              (advance-serving t state persistent mode at ∙ ap (after_round p policy t) d)
            ∙ e,
      )
  persistent_round fuel t state last (err x, s) mode at d h more = (
    1,
    run_alone-suc 0 t state _
          (advance-serving t state persistent mode at ∙ ap (after_round p policy t) d)
        ∙ cc,
  )

  persistent_alone :
      (fuel : ℕ) (t : Thread U) (state : S) (last : Session S U)
      → policy.session ≡ persistent
      → t.phase ≡ serving
      → request_loop p fuel (session_of p policy t.conn state) ≡ some last
      → Ends t state last
  unfolding request_loop
  persistent_alone zero t state last mode at h = cc
  persistent_alone (suc fuel) t state last mode at h =
      persistent_round fuel t state last _ mode at refl h
        (λ t' state' at' h'. persistent_alone fuel t' state' last mode at' h')

  session_alone :
      (mode : SessionMode) (fuel : ℕ) (t : Thread U) (state : S) (last : Session S U)
      → policy.session ≡ mode
      → t.phase ≡ serving
      → serve_session p mode fuel (session_of p policy t.conn state) ≡ some last
      → Ends t state last
  unfolding Ends run_alone
  session_alone one_shot fuel t state last mode at h =
      (1, run_alone-suc 0 t state _ (advance-serving t state one_shot mode at) ∙ cc)
  session_alone persistent fuel t state last mode at h =
      persistent_alone fuel t state last mode at h

  -- A new thread that runs with no other in between does what `handle_conn` does: where that returns,
  -- the thread does so as well, after some number of actions, and leaves the same state.
  pub run_alone-handle_conn :
      (fuel : ℕ) (stream : U) (state : S) (last : Session S U)
      → handle_conn p fuel policy.auth policy.session policy.max_frame stream state ≡ some last
      → (n : ℕ) × (run_alone n (new_thread p policy stream) state ≡ (none, last.state))
  unfolding handle_conn run_alone advance Ends
  run_alone-handle_conn fuel stream state last h =
      let t = new_thread p policy stream in
      elim (Bool-cases (allows creds policy.auth stream)) [
        | inl granted ↦
            let t' = record t { phase = serving } in
            let (n, e) =
              session_alone policy.session fuel t' state last refl refl (rw granted at h) in
            (suc n, run_alone-suc n t state (some t', state) (rw granted) ∙ e)
        | inr refused ↦ (1, run_alone-suc 0 t state (none, last.state) (ground arith))
      ]
