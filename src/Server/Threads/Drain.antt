-- ===== src/Server/Threads/Drain.antt =====
-- The slots of ipc/server.rs come back: from every state that a server can get to, its threads can run
-- to their ends.
use rust_commons.Prelude.{
  ℕ, zero, suc, ◌+◌, ◌≤◌, ◌<◌, ◌≡◌, refl, ap, subst, ◌∙◌, false, some, List, [], ◌∷◌, ◌++◌, length,
  arith, leb,
}
use rust_commons.StdIo.{Delivers}
use rust_commons.Server.{AcceptPolicy, Parts}
use rust_commons.Server.Accept.{usize_mod}
use rust_commons.Server.Accept.Cap.{in_hand}
use rust_commons.Server.Termination.{IsConsuming}
use rust_commons.Server.Threads.{
  Thread, waiting, counting, System, Action, accepts, runs, releases, begin_with, advance_at,
  on_releases, act, run_actions,
}
use rust_commons.Server.Threads.Refines.{place_of, threads_within_cap}
use rust_commons.Server.Threads.Work.{work, turn_at, advance_at-work}

unfoldable pub times : {A : Type 0} → ℕ → A → List A
times zero a = []
times (suc n) a = a ∷ times n a

module _ {S U J V E : Type 0} (p : Parts S U J V E) (policy : AcceptPolicy) where
  run_actions-append :
      (actions more : List (Action U)) (s : System S U)
      → run_actions p policy (actions ++ more) s
        ≡ run_actions p policy more (run_actions p policy actions s)
  unfolding run_actions
  run_actions-append [] more s = refl
  run_actions-append (a ∷ actions) more s = run_actions-append actions more (act p policy a s)

  -- What the threads that run leave alone.
  record Keeps (s t : System S U) : Type 0 where
    stage : t.stage ≡ s.stage
    panicked : t.panicked ≡ s.panicked

  module _ (d : Delivers p.rd) (quiet : IsConsuming p d) where
    work-none : (threads : List (Thread U)) → work p policy d threads ≤ 0 → threads ≡ []
    unfolding work
    work-none [] h = refl
    work-none (t ∷ threads) h = absurd (omega arith)

    first_turn :
        (n : ℕ) (threads : List (Thread U)) (state : S)
        → work p policy d threads ≤ suc n
        → work p policy d (advance_at p policy 0 threads state).threads ≤ n
    unfolding work turn_at advance_at
    first_turn n [] state h = omega arith
    first_turn n (t ∷ threads) state h =
        omega (arith, advance_at-work p policy d quiet 0 (t ∷ threads) state)

    -- Enough actions of the first thread, as long as there is one, and all have left.
    threads_leave :
        (n : ℕ) (s : System S U)
        → work p policy d s.threads ≤ n
        → let t = run_actions p policy (times n (runs 0)) s in (t.threads ≡ []) × Keeps s t
    unfolding times run_actions act
    threads_leave zero s h = (work-none s.threads h, record { stage = refl; panicked = refl })
    threads_leave (suc n) s h =
        let (none_left, k) =
          threads_leave n (act p policy (runs 0) s) (first_turn n s.threads s.state h) in
        (none_left, record { stage = k.stage; panicked = k.panicked })

  one_release :
      (m n : ℕ) (s : System S U)
      → m ≡ suc n
      → ((on_releases p policy m s).leaving ≡ n)
        × ((on_releases p policy m s).threads ≡ s.threads)
        × Keeps s (on_releases p policy m s)
  one_release zero n s h = absurd (omega arith)
  one_release (suc m) n s h = (omega arith, refl, record { stage = refl; panicked = refl })

  releases_leave :
      (n : ℕ) (s : System S U)
      → s.leaving ≡ n
      → let t = run_actions p policy (times n releases) s in
        (t.leaving ≡ 0) × (t.threads ≡ s.threads) × Keeps s t
  unfolding times run_actions act
  releases_leave zero s h = (h, refl, record { stage = refl; panicked = refl })
  releases_leave (suc n) s h =
      let (e, same, k) = one_release s.leaving n s h in
      let (gone, same', k') = releases_leave n (act p policy releases s) e in
      (
        gone,
        same' ∙ same,
        record { stage = k'.stage ∙ k.stage; panicked = k'.panicked ∙ k.panicked },
      )

  next_is_counted :
      (max : ℕ) (stream : U) (s : System S U)
      → policy.max_clients ≡ some max
      → s.stage ≡ waiting
      → s.clients < max
      → (act p policy (accepts stream) s).stage ≡ counting stream
  unfolding act
  next_is_counted max stream s capped at room =
      let below : leb max s.clients ≡ false = ground arith in rw (at, capped, below)

  all_leave :
      (d : Delivers p.rd)
      → IsConsuming p d
      → (s : System S U)
      → (turns : ℕ) × (rest : ℕ) × (let u =
            run_actions p policy (times turns (runs 0) ++ times rest releases) s in
          (u.threads ≡ []) × (u.leaving ≡ 0) × Keeps s u)
  all_leave d quiet s =
      let turns = work p policy d s.threads in
      let t = run_actions p policy (times turns (runs 0)) s in
      let (left, k) = threads_leave d quiet turns s (omega arith) in
      let (gone, same, k') = releases_leave t.leaving t refl in
      let e = run_actions-append (times turns (runs 0)) (times t.leaving releases) s in
      (
        turns,
        t.leaving,
        (
          ap (λ x. x.threads) e ∙ same ∙ left,
          ap (λ x. x.leaving) e ∙ gone,
          record {
            stage = ap (λ x. x.stage) e ∙ k'.stage ∙ k.stage;
            panicked = ap (λ x. x.panicked) e ∙ k'.panicked ∙ k.panicked;
          },
        ),
      )

  idle_count :
      (u : System S U)
      → u.threads ≡ []
      → u.leaving ≡ 0
      → u.stage ≡ waiting
      → length u.threads + u.leaving + u.panicked + in_hand (place_of u.stage) ≡ u.clients
      → u.clients ≡ u.panicked
  idle_count u empty none_leaves waits h = omega (arith, rw (empty, none_leaves, waits) at h)

  -- With a cap that a `usize` holds, and commands and an error handler that put no byte back, on
  -- every schedule at which the accept loop waits and fewer threads have panicked than the cap: if
  -- the peers close their sides, so that every read returns, then the threads that there are can
  -- run to their ends and give their slots back, whatever their peers have sent before; then the
  -- counter is the number of threads that have panicked, and the next client is let in.
  pub slots_come_back :
      (d : Delivers p.rd)
      → IsConsuming p d
      → (max : ℕ) (state : S) (actions : List (Action U)) (stream : U)
      → policy.max_clients ≡ some max
      → max < usize_mod
      → (run_actions p policy actions (begin_with state)).stage ≡ waiting
      → (run_actions p policy actions (begin_with state)).panicked < max
      → (turns : ℕ) × (rest : ℕ) × (let s = run_actions p policy actions (begin_with state) in
          let u = run_actions p policy (times turns (runs 0) ++ times rest releases) s in
          (u.threads ≡ [])
          × (u.leaving ≡ 0)
          × (u.clients ≡ s.panicked)
          × ((act p policy (accepts stream) u).stage ≡ counting stream))
  slots_come_back d quiet max state actions stream capped fits at room =
      let s = run_actions p policy actions (begin_with state) in
      let (turns, rest, (empty, none_leaves, k)) = all_leave d quiet s in
      let more = times turns (runs 0) ++ times rest releases in
      let counted =
        idle_count (run_actions p policy more s) empty none_leaves (k.stage ∙ at) (
          subst
            (λ (x : System S U).
              length x.threads + x.leaving + x.panicked + in_hand (place_of x.stage) ≡ x.clients)
            (run_actions-append actions more (begin_with state))
            (threads_within_cap p policy max state (actions ++ more) capped fits).0)
        ∙ k.panicked in
      (
        turns,
        rest,
        (
          empty,
          none_leaves,
          counted,
          next_is_counted max stream _ capped (k.stage ∙ at) (rw counted room),
        ),
      )
