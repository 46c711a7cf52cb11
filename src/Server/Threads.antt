-- ===== src/Server/Threads.antt =====
-- The whole of `serve_listener` of ipc/server.rs: the accept loop of Accept with the sessions of the
-- parent in its threads, which share the state of the daemon. A command, and each call of the error
-- handler with it, is one action here; between two actions of a thread any other may run.
pub mod Refines
pub mod Refusal
pub mod Strangers
pub mod Solo
pub mod Work
pub mod Drain
pub mod Local
pub mod Apart
pub mod Crosstalk
mod Examples
use rust_commons.Prelude.{
  ℕ, zero, suc, ◌+◌, Bool, true, false, Option, none, some, List, [], ◌∷◌, Result, ok, err, leb,
  if◌then◌else◌,
}
use rust_commons.Frame.{FrameError}
use rust_commons.Auth.{allows}
use rust_commons.Command.{busy, auth, Connection, connect_stream, Session}
use rust_commons.Server.{
  SessionMode, one_shot, persistent, AcceptPolicy, Parts, dispatch_one, end_one_shot,
  end_persistent,
}
use rust_commons.Server.Accept.{fetch_add, fetch_sub}

-- A thread is before the test of its peer, or in front of its next request.
pub data Phase : Type 0 where
  starting serving : Phase

-- `peer` is the stream as it was accepted, whose credentials do not change.
pub record Thread (U : Type 0) : Type 0 where
  pub phase : Phase
  pub peer : U
  pub conn : Connection U

-- Where the accept loop stands, with the stream that it has in hand.
pub data Stage (U : Type 0) : Type 0 where
  waiting stopped : Stage U
  counting spawning : U → Stage U

pub record System (S U : Type 0) : Type 0 where
  pub stage : Stage U
  pub clients : ℕ
  pub state : S
  pub threads : List (Thread U)
  pub leaving : ℕ
  pub panicked : ℕ
  pub rejected : ℕ

pub data Action (U : Type 0) : Type 0 where
  accepts : U → Action U
  fails : (path_exists : Bool) → Action U
  proceeds : Action U
  runs crashes : (thread : ℕ) → Action U
  releases : Action U

abbrev pub begin_with : {S U : Type 0} → S → System S U
begin_with state = record {
  stage = waiting;
  clients = 0;
  state = state;
  threads = [];
  leaving = 0;
  panicked = 0;
  rejected = 0;
}

-- The threads behind an action of one of them, and whether it has left `handle_conn`.
pub record Moved (S U : Type 0) : Type 0 where
  pub threads : List (Thread U)
  pub left : Bool
  pub state : S

module _ {S U J V E : Type 0} (p : Parts S U J V E) (policy : AcceptPolicy) where
  open p use {creds, hooks}

  abbrev pub session_of : Connection U → S → Session S U
  session_of conn state = record { state = state; conn = conn }

  -- A round of the `loop` of a persistent session.
  abbrev pub after_round :
      Thread U → Result (FrameError J) (Unit {0}) × Session S U → Option (Thread U) × S
  after_round t (ok _, s) = (some (record t { conn = s.conn }), s.state)
  after_round t (err e, s) = (none, (end_persistent p e s).state)

  abbrev pub serve_turn : SessionMode → Thread U → S → Option (Thread U) × S
  serve_turn one_shot t state =
      (none, (end_one_shot p (dispatch_one p (session_of t.conn state))).state)
  serve_turn persistent t state = after_round t (dispatch_one p (session_of t.conn state))

  abbrev pub advance_in : Phase → Thread U → S → Option (Thread U) × S
  advance_in starting t state =
      if allows creds policy.auth t.peer
      then (some (record t { phase = serving }), state)
      else (none, (hooks.reject auth (session_of t.conn state)).state)
  advance_in serving t state = serve_turn policy.session t state

  -- The next action of a thread inside `handle_conn`; `none` if it returns.
  unfoldable pub advance : Thread U → S → Option (Thread U) × S
  advance t state = advance_in t.phase t state

  abbrev pub settle : List (Thread U) → Option (Thread U) × S → Moved S U
  settle others (some t, state) = record { threads = t ∷ others; left = false; state = state }
  settle others (none, state) = record { threads = others; left = true; state = state }

  unfoldable pub advance_at : ℕ → List (Thread U) → S → Moved S U
  advance_at i [] state = record { threads = []; left = false; state = state }
  advance_at zero (t ∷ others) state = settle others (advance t state)
  advance_at (suc i) (t ∷ others) state =
      let m = advance_at i others state in record m { threads = t ∷ m.threads }

  -- `thread::spawn`
  abbrev pub new_thread : U → Thread U
  new_thread stream = record {
    phase = starting;
    peer = stream;
    conn = connect_stream stream policy.max_frame;
  }

  -- `hooks.reject` is taken to return here, on the thread of the loop.
  abbrev pub turn_away : U → System S U → System S U
  turn_away stream s = record s {
    rejected = s.rejected + 1;
    state = (hooks.reject busy (session_of (connect_stream stream policy.max_frame) s.state)).state;
  }

  abbrev pub on_accepts : U → Stage U → System S U → System S U
  on_accepts stream waiting s = elim policy.max_clients [
    | some max ↦
        if leb max s.clients then turn_away stream s else record s { stage = counting stream }
    | none ↦ record s { stage = spawning stream }
  ]
  on_accepts stream _ s = s

  abbrev pub on_fails : Bool → Stage U → System S U → System S U
  on_fails false waiting s = record s { stage = stopped }
  on_fails _ _ s = s

  abbrev pub on_proceeds : Stage U → System S U → System S U
  on_proceeds (counting stream) s = record s {
    stage = spawning stream;
    clients = fetch_add s.clients;
  }
  on_proceeds (spawning stream) s = record s {
    stage = waiting;
    threads = new_thread stream ∷ s.threads;
  }
  on_proceeds _ s = s

  abbrev pub on_runs : Moved S U → System S U → System S U
  on_runs m s = record s {
    threads = m.threads;
    state = m.state;
    leaving = if m.left then s.leaving + 1 else s.leaving;
  }

  -- A panic ends the thread where it stands.
  unfoldable pub drop_at : ℕ → List (Thread U) → Option (List (Thread U))
  drop_at i [] = none
  drop_at zero (t ∷ others) = some others
  drop_at (suc i) (t ∷ others) = elim (drop_at i others) [ some l ↦ some (t ∷ l) | none ↦ none ]

  abbrev pub on_crashes : Option (List (Thread U)) → System S U → System S U
  on_crashes none s = s
  on_crashes (some others) s = record s { threads = others; panicked = s.panicked + 1 }

  abbrev pub give_back : ℕ → ℕ
  give_back clients = elim policy.max_clients [ some _ ↦ fetch_sub clients | none ↦ clients ]

  abbrev pub on_releases : ℕ → System S U → System S U
  on_releases zero s = s
  on_releases (suc n) s = record s { leaving = n; clients = give_back s.clients }

  unfoldable pub act : Action U → System S U → System S U
  act (accepts stream) s = on_accepts stream s.stage s
  act (fails path_exists) s = on_fails path_exists s.stage s
  act proceeds s = on_proceeds s.stage s
  act (runs i) s = on_runs (advance_at i s.threads s.state) s
  act (crashes i) s = on_crashes (drop_at i s.threads) s
  act releases s = on_releases s.leaving s

  unfoldable pub run_actions : List (Action U) → System S U → System S U
  unfolding act
  run_actions [] s = s
  run_actions (a ∷ actions) s = run_actions actions (act a s)
