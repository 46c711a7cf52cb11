-- ===== src/Server/Threads/Refines.antt =====
-- The server with its sessions is a refinement of the accept loop that only counts its threads.
use rust_commons.Prelude.{
  ℕ, zero, suc, ◌+◌, ◌≤◌, ◌<◌, ◌≡◌, refl, sym, ap, subst, ◌∙◌, Bool, true, false, Option, none,
  some, List, [], ◌∷◌, ◌++◌, length, arith, if◌then◌else◌, Option-cases, inl, inr,
}
use rust_commons.Server.{AcceptPolicy, Parts}
use rust_commons.Server.Accept
use rust_commons.Server.Accept.{Place, Loop, Event, start, usize_mod}
use rust_commons.Server.Accept.Cap.{in_hand, run_within_cap}
use rust_commons.Server.Threads.{
  Thread, Stage, waiting, stopped, counting, spawning, System, Action, accepts, fails, proceeds,
  runs, crashes, releases, begin_with, advance, settle, advance_at, drop_at, act, on_runs,
  on_crashes, run_actions,
}

abbrev pub place_of : {U : Type 0} → Stage U → Place
place_of waiting = Place.waiting
place_of stopped = Place.stopped
place_of (counting _) = Place.counting
place_of (spawning _) = Place.spawning

-- What the accept loop sees of the server.
abbrev pub loop_of : {S U : Type 0} → System S U → Loop
loop_of s = record {
  place = place_of s.stage;
  clients = s.clients;
  running = length s.threads;
  leaving = s.leaving;
  panicked = s.panicked;
  rejected = s.rejected;
}

run-append :
    (max_clients : Option ℕ) (es fs : List Event) (l : Loop)
    → Accept.run max_clients fs (Accept.run max_clients es l) ≡ Accept.run max_clients (es ++ fs) l
unfolding Accept.run
run-append m [] fs l = refl
run-append m (e ∷ es) fs l = run-append m es fs (Accept.step m e l)

module _ {S U J V E : Type 0} (p : Parts S U J V E) (policy : AcceptPolicy) where
  abbrev left_event : Bool → List Event
  left_event true = Event.returns ∷ []
  left_event false = []

  abbrev crash_event : Option (List (Thread U)) → List Event
  crash_event (some _) = Event.panics ∷ []
  crash_event none = []

  -- The event of the accept loop that an action is; a request that a session survives is none.
  abbrev pub events_of : Action U → System S U → List Event
  events_of (accepts _) s = Event.accepted ∷ []
  events_of (fails path_exists) s = Event.failed path_exists ∷ []
  events_of proceeds s = Event.proceed ∷ []
  events_of (runs i) s = left_event (advance_at p policy i s.threads s.state).left
  events_of (crashes i) s = crash_event (drop_at p policy i s.threads)
  events_of releases s = Event.releases ∷ []

  unfoldable pub trace : List (Action U) → System S U → List Event
  trace [] s = []
  trace (a ∷ actions) s = events_of a s ++ trace actions (act p policy a s)

  settle-length :
      (others : List (Thread U)) (x : Option (Thread U) × S)
      → length (settle p policy others x).threads
          + (if (settle p policy others x).left then 1 else 0)
        ≡ suc (length others)
  settle-length others (some t, state) = omega arith
  settle-length others (none, state) = omega arith

  advance_at-length :
      (i : ℕ) (threads : List (Thread U)) (state : S)
      → length (advance_at p policy i threads state).threads
          + (if (advance_at p policy i threads state).left then 1 else 0)
        ≡ length threads
  unfolding advance_at
  advance_at-length i [] state = omega arith
  advance_at-length zero (t ∷ others) state = settle-length others (advance p policy t state)
  advance_at-length (suc i) (t ∷ others) state = omega (arith, advance_at-length i others state)

  drop_at-length :
      (i : ℕ) (threads others : List (Thread U))
      → drop_at p policy i threads ≡ some others
      → suc (length others) ≡ length threads
  unfolding drop_at
  drop_at-length i [] others h = cc
  drop_at-length zero (t ∷ l) others h = ground arith
  drop_at-length (suc i) (t ∷ l) others h = elim (Option-cases (drop_at p policy i l)) [
    | inl e ↦ cc (rw e at h)
    | inr (rest, e) ↦
        let q : others ≡ t ∷ rest = cc (rw e at h) in
        rw q (omega (arith, drop_at-length i l rest e))
  ]

  loop_of-runs :
      (threads : List (Thread U)) (left : Bool) (state : S) (s : System S U)
      → length threads + (if left then 1 else 0) ≡ length s.threads
      → loop_of (on_runs p policy (record { threads = threads; left = left; state = state }) s)
        ≡ Accept.run policy.max_clients (left_event left) (loop_of s)
  unfolding Accept.run Accept.step
  loop_of-runs threads true state s h = ground arith
  loop_of-runs threads false state s h = ground arith

  loop_of-crashes :
      (o : Option (List (Thread U))) (s : System S U)
      → ((others : List (Thread U)) → o ≡ some others → suc (length others) ≡ length s.threads)
      → loop_of (on_crashes p policy o s)
        ≡ Accept.run policy.max_clients (crash_event o) (loop_of s)
  unfolding Accept.run Accept.step
  loop_of-crashes none s h = refl
  loop_of-crashes (some others) s h = ground (arith, h others refl)

  loop_of-act :
      (a : Action U) (s : System S U)
      → loop_of (act p policy a s) ≡ Accept.run policy.max_clients (events_of a s) (loop_of s)
  unfolding act Accept.run Accept.step
  loop_of-act (accepts u) s = ground arith
  loop_of-act (fails b) s = ground arith
  loop_of-act proceeds s = ground arith
  loop_of-act (runs i) s =
      loop_of-runs _ _ (advance_at p policy i s.threads s.state).state s
        (advance_at-length i s.threads s.state)
  loop_of-act (crashes i) s =
      loop_of-crashes (drop_at p policy i s.threads) s (drop_at-length i s.threads)
  loop_of-act releases s = ground arith

  -- On every schedule, what the accept loop and its counter see of the server with its sessions, its
  -- commands and its shared state, is a run of the loop that only counts: whatever the sessions do,
  -- they touch the loop by returning and panicking alone.
  pub run_actions_refines :
      (actions : List (Action U)) (s : System S U)
      → loop_of (run_actions p policy actions s)
        ≡ Accept.run policy.max_clients (trace actions s) (loop_of s)
  unfolding run_actions trace
  run_actions_refines [] s = unfold Accept.run in refl
  run_actions_refines (a ∷ actions) s =
      run_actions_refines actions (act p policy a s)
      ∙ ap (λ l. Accept.run policy.max_clients (trace actions (act p policy a s)) l)
          (loop_of-act a s)
      ∙ run-append policy.max_clients (events_of a s) (trace actions (act p policy a s)) (loop_of s)

  -- With a cap that a `usize` holds, on any schedule of a server that begins with no client: the
  -- counter is the number of the threads inside `handle_conn`, of those that have left it and not
  -- yet given their slot back, of those that have panicked, and of the stream that the accept loop
  -- has counted; and it is never above the cap.
  pub threads_within_cap :
      (max : ℕ) (state : S) (actions : List (Action U))
      → policy.max_clients ≡ some max
      → max < usize_mod
      → let s = run_actions p policy actions (begin_with state) in
        (length s.threads + s.leaving + s.panicked + in_hand (place_of s.stage) ≡ s.clients)
        × (s.clients ≤ max)
  threads_within_cap max state actions capped fits =
      let es = trace actions (begin_with state) in
      let e =
        run_actions_refines actions (begin_with state)
        ∙ ap (λ (o : Option ℕ). Accept.run o es start) capped in
      subst
        (λ (l : Loop).
          (l.running + l.leaving + l.panicked + in_hand l.place ≡ l.clients) × (l.clients ≤ max))
        (sym e) (run_within_cap max fits es)
