-- ===== src/Server/Threads/Work.antt =====
-- What the sessions of ipc/server.rs do is bounded by what their peers send.
use rust_commons.Prelude.{
  ℕ, zero, suc, ◌+◌, ◌≤◌, ◌<◌, ◌≡◌, refl, Option, none, some, List, [], ◌∷◌, Result, ok, err,
  length, arith, Option-cases, inl, inr,
}
use rust_commons.StdIo.{Delivers}
use rust_commons.Frame.{FrameError}
use rust_commons.Command.{Session}
use rust_commons.Server.{SessionMode, one_shot, persistent, AcceptPolicy, Parts, dispatch_one}
use rust_commons.Server.Termination.{IsConsuming, dispatch_one-shrinks}
use rust_commons.Server.Threads.{
  Phase, starting, serving, Thread, Stage, spawning, System, Action, accepts, fails, proceeds, runs,
  crashes, releases, session_of, after_round, serve_turn, advance_in, advance, settle, advance_at,
  drop_at, on_crashes, act, run_actions,
}

module _ {S U J V E : Type 0} (p : Parts S U J V E) (policy : AcceptPolicy)
    (d : Delivers p.rd) where
  abbrev test_left : Phase → ℕ
  test_left starting = 1
  test_left serving = 0

  -- As many actions as a thread may still have: the test of its peer, a request for each byte that is
  -- unread, and the one that finds the end.
  abbrev pub turns_left : Thread U → ℕ
  turns_left t = test_left t.phase + suc (length (d.bytes t.conn.stream))

  unfoldable pub work : List (Thread U) → ℕ
  work [] = 0
  work (t ∷ threads) = turns_left t + work threads

  abbrev pub work_of : Option (Thread U) → ℕ
  work_of none = 0
  work_of (some t) = turns_left t

  -- 1 if there is such a thread, which then makes an action
  unfoldable pub turn_at : ℕ → List (Thread U) → ℕ
  turn_at i [] = 0
  turn_at zero (t ∷ others) = 1
  turn_at (suc i) (t ∷ others) = turn_at i others

  abbrev pub turn_of : Action U → System S U → ℕ
  turn_of (runs i) s = turn_at i s.threads
  turn_of _ s = 0

  -- The actions of a schedule that a session makes.
  unfoldable pub turns_made : List (Action U) → System S U → ℕ
  turns_made [] s = 0
  turns_made (a ∷ actions) s = turn_of a s + turns_made actions (act p policy a s)

  abbrev work_in_hand : Stage U → ℕ
  work_in_hand (spawning stream) = suc (suc (length (d.bytes stream)))
  work_in_hand _ = 0

  abbrev pub brought_by : Action U → System S U → ℕ
  brought_by proceeds s = work_in_hand s.stage
  brought_by _ s = 0

  -- For each thread that a schedule spawns, the bytes that its peer sends, and two.
  unfoldable pub work_brought : List (Action U) → System S U → ℕ
  work_brought [] s = 0
  work_brought (a ∷ actions) s = brought_by a s + work_brought actions (act p policy a s)

  drop_at-work :
      (i : ℕ) (threads others : List (Thread U))
      → drop_at p policy i threads ≡ some others
      → work others ≤ work threads
  unfolding drop_at work
  drop_at-work i [] others h = cc
  drop_at-work zero (t ∷ l) others h = let e : l ≡ others = cc in rw⁻¹ e (omega arith)
  drop_at-work (suc i) (t ∷ l) others h = elim (Option-cases (drop_at p policy i l)) [
    | inl e ↦ cc (rw e at h)
    | inr (rest, e) ↦
        let q : others ≡ t ∷ rest = cc (rw e at h) in rw q (omega (arith, drop_at-work i l rest e))
  ]

  module _ (quiet : IsConsuming p d) where
    after_round-work :
        (t : Thread U) (state : S) (x : Result (FrameError J) (Unit {0}) × Session S U)
        → dispatch_one p (session_of p policy t.conn state) ≡ x
        → t.phase ≡ serving
        → work_of (after_round p policy t x).0 < turns_left t
    after_round-work t state (ok _, s) e at =
        rw at (omega (arith, dispatch_one-shrinks p d quiet (session_of p policy t.conn state) s e))
    after_round-work t state (err x, s) e at = omega arith

    serve_turn-work :
        (mode : SessionMode) (t : Thread U) (state : S)
        → t.phase ≡ serving
        → work_of (serve_turn p policy mode t state).0 < turns_left t
    serve_turn-work one_shot t state at = omega arith
    serve_turn-work persistent t state at = after_round-work t state _ refl at

    advance_in-work :
        (phase : Phase) (t : Thread U) (state : S)
        → t.phase ≡ phase
        → work_of (advance_in p policy phase t state).0 < turns_left t
    advance_in-work starting t state at = rw at (ground arith)
    advance_in-work serving t state at = serve_turn-work policy.session t state at

    settle-work :
        (others : List (Thread U)) (x : Option (Thread U) × S)
        → work (settle p policy others x).threads ≡ work_of x.0 + work others
    unfolding work
    settle-work others (some t, state) = refl
    settle-work others (none, state) = omega arith

    pub advance_at-work :
        (i : ℕ) (threads : List (Thread U)) (state : S)
        → work (advance_at p policy i threads state).threads + turn_at i threads ≤ work threads
    unfolding advance_at advance work turn_at
    advance_at-work i [] state = omega arith
    advance_at-work zero (t ∷ others) state =
        omega (
          arith,
          settle-work others (advance p policy t state),
          advance_in-work t.phase t state refl,
        )
    advance_at-work (suc i) (t ∷ others) state = omega (arith, advance_at-work i others state)

    on_crashes-work :
        (o : Option (List (Thread U))) (s : System S U)
        → ((others : List (Thread U)) → o ≡ some others → work others ≤ work s.threads)
        → work (on_crashes p policy o s).threads ≤ work s.threads
    on_crashes-work none s h = omega arith
    on_crashes-work (some others) s h = h others refl

    act-work :
        (a : Action U) (s : System S U)
        → turn_of a s + work (act p policy a s).threads ≤ work s.threads + brought_by a s
    unfolding act work
    act-work (accepts u) s = ground arith
    act-work (fails b) s = ground arith
    act-work proceeds s = ground arith
    act-work (runs i) s = omega (arith, advance_at-work i s.threads s.state)
    act-work (crashes i) s =
        omega (arith, on_crashes-work (drop_at p policy i s.threads) s (drop_at-work i s.threads))
    act-work releases s = ground arith

    -- If commands and the error handler put no byte back, the sessions make, on any schedule, at most
    -- as many actions as the threads had left at its beginning, and as the bytes that the peers of
    -- the new threads send, and two for each of these: whatever the interleaving, requests are
    -- served only for bytes that were sent, and no thread stays busy for ever.
    pub turns_made_bounded :
        (actions : List (Action U)) (s : System S U)
        → turns_made actions s + work (run_actions p policy actions s).threads
          ≤ work s.threads + work_brought actions s
    unfolding turns_made work_brought run_actions
    turns_made_bounded [] s = omega arith
    turns_made_bounded (a ∷ actions) s =
        omega (arith, act-work a s, turns_made_bounded actions (act p policy a s))
