-- ===== src/Server/Threads/Strangers.antt =====
-- A peer that the policy does not permit reaches no command, whatever the other threads do.
use rust_commons.Prelude.{
  ℕ, zero, suc, ◌≡◌, refl, ◌∙◌, leb, if◌then◌else◌, Bool, true, false, Option, none, some, List, [],
  ◌∷◌,
}
use rust_commons.Command.{busy, connect_stream}
use rust_commons.Server.{AcceptPolicy, Parts}
use rust_commons.Server.Threads.{
  Thread, Stage, waiting, stopped, counting, spawning, System, Action, accepts, fails, proceeds,
  runs, crashes, releases, begin_with, advance_at, drop_at, act, run_actions, on_crashes,
  on_releases, on_accepts, on_fails, on_proceeds, on_runs, session_of, turn_away,
}
use rust_commons.Server.Threads.Refusal.{
  Stranger, Unserved, RejectsQuietly, advance_at-Unserved, drop_at-Unserved,
}

module _ {S U J V E : Type 0} (p : Parts S U J V E) (policy : AcceptPolicy) where
  open p use {creds, hooks}

  -- Every stream that is accepted comes from a stranger.
  abbrev pub OnlyStrangers : List (Action U) → Type 0
  OnlyStrangers [] = Unit {0}
  OnlyStrangers (accepts stream ∷ actions) = Stranger p policy stream × OnlyStrangers actions
  OnlyStrangers (_ ∷ actions) = OnlyStrangers actions

  abbrev pub StrangeStage : Stage U → Type 0
  StrangeStage (counting stream) = Stranger p policy stream
  StrangeStage (spawning stream) = Stranger p policy stream
  StrangeStage _ = Unit {0}

  -- No thread has come past the test, and the state is what it was.
  pub record IsUntouched (state : S) (s : System S U) : Type 0 where
    pub unserved : Unserved p policy s.threads
    pub strange : StrangeStage s.stage
    pub same : s.state ≡ state

  split_strangers :
      (a : Action U) (actions : List (Action U))
      → OnlyStrangers (a ∷ actions)
      → OnlyStrangers (a ∷ []) × OnlyStrangers actions
  split_strangers (accepts u) actions o = ((o.0, tt), o.1)
  split_strangers (fails b) actions o = (tt, o)
  split_strangers proceeds actions o = (tt, o)
  split_strangers (runs i) actions o = (tt, o)
  split_strangers (crashes i) actions o = (tt, o)
  split_strangers releases actions o = (tt, o)

  module _ (quiet : RejectsQuietly p policy) where
    module _ (state : S) where
      tested-IsUntouched :
          (stream : U) (full : Bool) (s : System S U)
          → Stranger p policy stream
          → IsUntouched state s
          → IsUntouched state
              (if full then turn_away p policy stream s else record s { stage = counting stream })
      tested-IsUntouched stream true s out h = record {
        unserved = h.unserved;
        strange = h.strange;
        same =
            quiet busy (session_of p policy (connect_stream stream policy.max_frame) s.state)
            ∙ h.same;
      }
      tested-IsUntouched stream false s out h = record {
        unserved = h.unserved;
        strange = out;
        same = h.same;
      }

      accepts-IsUntouched :
          (stream : U) (stage : Stage U) (s : System S U)
          → Stranger p policy stream
          → IsUntouched state s
          → IsUntouched state (on_accepts p policy stream stage s)
      accepts-IsUntouched stream waiting s out h =
          elim policy.max_clients
            as (λ (o : Option ℕ). IsUntouched state (elim o [
              | some max ↦
                  if leb max s.clients
                  then turn_away p policy stream s
                  else record s { stage = counting stream }
              | none ↦ record s { stage = spawning stream }
            ])) [
              | none ↦ record { unserved = h.unserved; strange = out; same = h.same }
              | some max ↦ tested-IsUntouched stream (leb max s.clients) s out h
            ]
      accepts-IsUntouched stream stopped s out h = h
      accepts-IsUntouched stream (counting u) s out h = h
      accepts-IsUntouched stream (spawning u) s out h = h

      proceeds-IsUntouched :
          (stage : Stage U) (s : System S U)
          → StrangeStage stage
          → IsUntouched state s
          → IsUntouched state (on_proceeds p policy stage s)
      proceeds-IsUntouched waiting s out h = h
      proceeds-IsUntouched stopped s out h = h
      proceeds-IsUntouched (counting u) s out h = record {
        unserved = h.unserved;
        strange = out;
        same = h.same;
      }
      proceeds-IsUntouched (spawning u) s out h = record {
        unserved = (refl, out, h.unserved);
        strange = tt;
        same = h.same;
      }

      fails-IsUntouched :
          (path_exists : Bool) (stage : Stage U) (s : System S U)
          → IsUntouched state s
          → IsUntouched state (on_fails p policy path_exists stage s)
      fails-IsUntouched true stage s h = h
      fails-IsUntouched false waiting s h = record {
        unserved = h.unserved;
        strange = tt;
        same = h.same;
      }
      fails-IsUntouched false stopped s h = h
      fails-IsUntouched false (counting u) s h = h
      fails-IsUntouched false (spawning u) s h = h

      runs-IsUntouched :
          (i : ℕ) (s : System S U)
          → IsUntouched state s
          → IsUntouched state (on_runs p policy (advance_at p policy i s.threads s.state) s)
      runs-IsUntouched i s h =
          let (unserved, same) =
            advance_at-Unserved p policy quiet i s.threads s.state h.unserved in
          record { unserved = unserved; strange = h.strange; same = same ∙ h.same }

      crashes-IsUntouched :
          (o : Option (List (Thread U))) (s : System S U)
          → ((others : List (Thread U)) → o ≡ some others → Unserved p policy others)
          → IsUntouched state s
          → IsUntouched state (on_crashes p policy o s)
      crashes-IsUntouched none s k h = h
      crashes-IsUntouched (some others) s k h = record {
        unserved = k others refl;
        strange = h.strange;
        same = h.same;
      }

      releases-IsUntouched :
          (n : ℕ) (s : System S U)
          → IsUntouched state s
          → IsUntouched state (on_releases p policy n s)
      releases-IsUntouched zero s h = h
      releases-IsUntouched (suc n) s h = record {
        unserved = h.unserved;
        strange = h.strange;
        same = h.same;
      }

      act-IsUntouched :
          (a : Action U) (s : System S U)
          → OnlyStrangers (a ∷ [])
          → IsUntouched state s
          → IsUntouched state (act p policy a s)
      unfolding act
      act-IsUntouched (accepts u) s o h = accepts-IsUntouched u s.stage s o.0 h
      act-IsUntouched (fails b) s o h = fails-IsUntouched b s.stage s h
      act-IsUntouched proceeds s o h = proceeds-IsUntouched s.stage s h.strange h
      act-IsUntouched (runs i) s o h = runs-IsUntouched i s h
      act-IsUntouched (crashes i) s o h =
          crashes-IsUntouched (drop_at p policy i s.threads) s
            (λ others e. drop_at-Unserved p policy quiet i s.threads others h.unserved e) h
      act-IsUntouched releases s o h = releases-IsUntouched s.leaving s h

      run_actions-IsUntouched :
          (actions : List (Action U)) (s : System S U)
          → OnlyStrangers actions
          → IsUntouched state s
          → IsUntouched state (run_actions p policy actions s)
      unfolding run_actions
      run_actions-IsUntouched [] s o h = h
      run_actions-IsUntouched (a ∷ actions) s o h =
          let (now, rest) = split_strangers a actions o in
          run_actions-IsUntouched actions (act p policy a s) rest (act-IsUntouched a s now h)

    -- If no peer that connects is permitted, no command ever runs: on every schedule of a server that
    -- begins with no client, the state of the daemon stays as it was, if its rejections leave it
    -- alone, and every thread that there is stands before the test of its peer, who is not permitted.
    pub strangers_change_nothing :
        (state : S) (actions : List (Action U))
        → OnlyStrangers actions
        → ((run_actions p policy actions (begin_with state)).state ≡ state)
          × Unserved p policy (run_actions p policy actions (begin_with state)).threads
    strangers_change_nothing state actions o =
        let start : IsUntouched state (begin_with state) = record {
          unserved = tt;
          strange = tt;
          same = refl;
        } in
        let h = run_actions-IsUntouched state actions (begin_with state) o start in
        (h.same, h.unserved)
