-- ===== src/Server/Dispatch.antt =====
-- Sessions of ipc/server.rs: which requests are served, how a session ends, and that it ends.
use rust_commons.Prelude.{
  ℕ, zero, suc, ◌≤◌, ◌≡◌, refl, sym, ap, ◌∙◌, ◌↔◌, some, Result, ok, err, arith,
}
use rust_commons.Frame.{FrameError}
use rust_commons.Command.{Session}
use rust_commons.Server.{Parts, dispatch_one, end_persistent, after_dispatch, request_loop}

module _ {S U J V E : Type 0} (p : Parts S U J V E) where
  open p use {js, rd, creds, router, hooks}

  -- A persistent session: requests that are served, then one that is not.
  pub data Serves : Session S U → Session S U → Type 0 where
    ends :
        {s s' t : Session S U} {e : FrameError J}
        → dispatch_one p s ≡ (err e, s')
        → t ≡ end_persistent p e s'
        → Serves s t
    request : {s s' t : Session S U} → dispatch_one p s ≡ (ok tt, s') → Serves s' t → Serves s t

  after_dispatch-Serves :
      (fuel : ℕ) (s t : Session S U) (x : Result (FrameError J) (Unit {0}) × Session S U)
      → dispatch_one p s ≡ x
      → ((s' : Session S U) → request_loop p fuel s' ≡ some t → Serves s' t)
      → after_dispatch p x (λ s'. request_loop p fuel s') ≡ some t
      → Serves s t
  after_dispatch-Serves fuel s t (ok _, s') e more h = request e (more s' h)
  after_dispatch-Serves fuel s t (err e, s') d more h = ends d (cc)

  request_loop-Serves : (fuel : ℕ) (s t : Session S U) → request_loop p fuel s ≡ some t → Serves s t
  unfolding request_loop
  request_loop-Serves zero s t h = cc
  request_loop-Serves (suc fuel) s t h =
      after_dispatch-Serves fuel s t (dispatch_one p s) refl (λ s'. request_loop-Serves fuel s' t) h

  pub rounds : {s t : Session S U} → Serves s t → ℕ
  rounds (ends _ _) = 1
  rounds (request _ more) = suc (rounds more)

  -- As many rounds as there are requests are enough fuel.
  pub Serves-request_loop :
      {s t : Session S U} (run : Serves s t) (fuel : ℕ)
      → rounds run ≤ fuel
      → request_loop p fuel s ≡ some t
  unfolding request_loop rounds
  Serves-request_loop (ends d e) zero h = absurd (omega arith)
  Serves-request_loop (ends d e) (suc fuel) h =
      ap (λ x. after_dispatch p x (λ s'. request_loop p fuel s')) d ∙ ap some (sym e)
  Serves-request_loop (request d more) zero h = absurd (omega arith)
  Serves-request_loop (request d more) (suc fuel) h =
      ap (λ x. after_dispatch p x (λ s'. request_loop p fuel s')) d
      ∙ Serves-request_loop more fuel (omega arith)

  -- The loop of a persistent session computes exactly what the requests lead to one after another:
  -- it gives `t` at some fuel if and only if the session serves its requests and ends in `t`.
  pub request_loop_iff :
      (s t : Session S U) → ((fuel : ℕ) × (request_loop p fuel s ≡ some t)) ↔ Serves s t
  request_loop_iff s t = (
    λ found. request_loop-Serves found.0 s t found.1,
    λ run. (rounds run, Serves-request_loop run (rounds run) (omega arith)),
  )
