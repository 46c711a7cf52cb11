-- ===== src/Server/Threads/Local.antt =====
-- What holds of a thread of ipc/server.rs because of its own steps alone, whatever state the other
-- threads leave it: it holds of every thread on every schedule.
use rust_commons.Prelude.{
  ℕ, zero, suc, ◌≡◌, refl, subst, leb, if◌then◌else◌, Bool, true, false, Option, none, some, List,
  [], ◌∷◌, Option-cases, inl, inr,
}
use rust_commons.Server.{AcceptPolicy, Parts}
use rust_commons.Server.Threads.{
  Thread, Stage, waiting, stopped, counting, spawning, System, Action, accepts, fails, proceeds,
  runs, crashes, releases, advance, advance_at, drop_at, act, run_actions, on_crashes, on_releases,
  on_accepts, on_fails, on_proceeds, settle, new_thread, turn_away,
}

module _ {S U J V E : Type 0} (p : Parts S U J V E) (policy : AcceptPolicy) (Arrives : U → Type 0)
    (Holds : Thread U → Type 0) where
  abbrev pub OrGone : Option (Thread U) → Type 0
  OrGone none = Unit {0}
  OrGone (some t) = Holds t

  -- A new thread has the property if its stream is as it should be, and no step of its own loses it.
  pub record IsLocal : Type 0 where
    pub spawned : (stream : U) → Arrives stream → Holds (new_thread p policy stream)
    pub advanced : (t : Thread U) (state : S) → Holds t → OrGone (advance p policy t state).0

  abbrev pub AllHold : List (Thread U) → Type 0
  AllHold [] = Unit {0}
  AllHold (t ∷ threads) = Holds t × AllHold threads

  abbrev pub AllArrive : List (Action U) → Type 0
  AllArrive [] = Unit {0}
  AllArrive (accepts stream ∷ actions) = Arrives stream × AllArrive actions
  AllArrive (_ ∷ actions) = AllArrive actions

  abbrev pub InHand : Stage U → Type 0
  InHand (counting stream) = Arrives stream
  InHand (spawning stream) = Arrives stream
  InHand _ = Unit {0}

  pub record IsKept (s : System S U) : Type 0 where
    pub threads : AllHold s.threads
    pub in_hand : InHand s.stage

  module _ (local : IsLocal) where
    settle-AllHold :
        (others : List (Thread U)) (x : Option (Thread U) × S)
        → OrGone x.0
        → AllHold others
        → AllHold (settle p policy others x).threads
    settle-AllHold others (none, state) h rest = rest
    settle-AllHold others (some t, state) h rest = (h, rest)

    advance_at-AllHold :
        (i : ℕ) (threads : List (Thread U)) (state : S)
        → AllHold threads
        → AllHold (advance_at p policy i threads state).threads
    unfolding advance_at
    advance_at-AllHold i [] state h = tt
    advance_at-AllHold zero (t ∷ others) state (h, rest) =
        settle-AllHold others (advance p policy t state) (local.advanced t state h) rest
    advance_at-AllHold (suc i) (t ∷ others) state (h, rest) =
        (h, advance_at-AllHold i others state rest)

    drop_at-AllHold :
        (i : ℕ) (threads others : List (Thread U))
        → AllHold threads
        → drop_at p policy i threads ≡ some others
        → AllHold others
    unfolding drop_at
    drop_at-AllHold i [] others h e = cc
    drop_at-AllHold zero (t ∷ threads) others (h, rest) e =
        subst AllHold (let q : threads ≡ others = cc e in q) rest
    drop_at-AllHold (suc i) (t ∷ threads) others (h, rest) e =
        elim (Option-cases (drop_at p policy i threads)) [
          | inl gone ↦ cc (rw gone at e)
          | inr (more, kept) ↦
              subst AllHold (let q : t ∷ more ≡ others = cc (rw kept at e) in q)
                (h, drop_at-AllHold i threads more rest kept)
        ]

    accepts-IsKept :
        (stream : U) (stage : Stage U) (s : System S U)
        → Arrives stream
        → IsKept s
        → IsKept (on_accepts p policy stream stage s)
    accepts-IsKept stream waiting s new h =
        elim policy.max_clients
          as (λ (o : Option ℕ). IsKept (elim o [
            | some max ↦
                if leb max s.clients
                then turn_away p policy stream s
                else record s { stage = counting stream }
            | none ↦ record s { stage = spawning stream }
          ])) [
            | none ↦ record { threads = h.threads; in_hand = new }
            | some max ↦
                elim (leb max s.clients)
                  as (λ (b : Bool). IsKept (
                    if b
                    then turn_away p policy stream s
                    else record s { stage = counting stream })) [
                      | true ↦ record { threads = h.threads; in_hand = h.in_hand }
                      | false ↦ record { threads = h.threads; in_hand = new }
                    ]
          ]
    accepts-IsKept stream stopped s new h = h
    accepts-IsKept stream (counting u) s new h = h
    accepts-IsKept stream (spawning u) s new h = h

    proceeds-IsKept :
        (stage : Stage U) (s : System S U)
        → InHand stage
        → IsKept s
        → IsKept (on_proceeds p policy stage s)
    proceeds-IsKept waiting s new h = h
    proceeds-IsKept stopped s new h = h
    proceeds-IsKept (counting u) s new h = record { threads = h.threads; in_hand = new }
    proceeds-IsKept (spawning u) s new h = record {
      threads = (local.spawned u new, h.threads);
      in_hand = tt;
    }

    fails-IsKept :
        (path_exists : Bool) (stage : Stage U) (s : System S U)
        → IsKept s
        → IsKept (on_fails p policy path_exists stage s)
    fails-IsKept true stage s h = h
    fails-IsKept false waiting s h = record { threads = h.threads; in_hand = tt }
    fails-IsKept false stopped s h = h
    fails-IsKept false (counting u) s h = h
    fails-IsKept false (spawning u) s h = h

    crashes-IsKept :
        (o : Option (List (Thread U))) (s : System S U)
        → ((others : List (Thread U)) → o ≡ some others → AllHold others)
        → IsKept s
        → IsKept (on_crashes p policy o s)
    crashes-IsKept none s k h = h
    crashes-IsKept (some others) s k h = record { threads = k others refl; in_hand = h.in_hand }

    releases-IsKept : (n : ℕ) (s : System S U) → IsKept s → IsKept (on_releases p policy n s)
    releases-IsKept zero s h = h
    releases-IsKept (suc n) s h = record { threads = h.threads; in_hand = h.in_hand }

    -- A schedule keeps what is local to the threads.
    pub run_actions-IsKept :
        (actions : List (Action U)) (s : System S U)
        → AllArrive actions
        → IsKept s
        → IsKept (run_actions p policy actions s)
    unfolding run_actions act
    run_actions-IsKept [] s arrive h = h
    run_actions-IsKept (accepts u ∷ actions) s (new, arrive) h =
        run_actions-IsKept actions (act p policy (accepts u) s) arrive
          (accepts-IsKept u s.stage s new h)
    run_actions-IsKept (fails b ∷ actions) s arrive h =
        run_actions-IsKept actions (act p policy (fails b) s) arrive (fails-IsKept b s.stage s h)
    run_actions-IsKept (proceeds ∷ actions) s arrive h =
        run_actions-IsKept actions (act p policy proceeds s) arrive
          (proceeds-IsKept s.stage s h.in_hand h)
    run_actions-IsKept (runs i ∷ actions) s arrive h =
        run_actions-IsKept actions (act p policy (runs i) s) arrive (record {
          threads = advance_at-AllHold i s.threads s.state h.threads;
          in_hand = h.in_hand;
        })
    run_actions-IsKept (crashes i ∷ actions) s arrive h =
        run_actions-IsKept actions (act p policy (crashes i) s) arrive (
          crashes-IsKept (drop_at p policy i s.threads) s
            (λ others e. drop_at-AllHold i s.threads others h.threads e) h)
    run_actions-IsKept (releases ∷ actions) s arrive h =
        run_actions-IsKept actions (act p policy releases s) arrive (releases-IsKept s.leaving s h)
