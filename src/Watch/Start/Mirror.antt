-- ===== src/Watch/Start/Mirror.antt =====
-- A watch with a channel and a watch with a callback in config/watch.rs announce the same reloads.
use rust_commons.Prelude.{
  ℕ, ◌≡◌, refl, Bool, true, false, List, [], ◌∷◌, Result, ok, err, Str, arith, if◌then◌else◌,
}
use rust_commons.StdIo.{ErrorKind, ThreadBuilder}
use rust_commons.Config.{ConfigError}
use rust_commons.Watch.{WatchSpec}
use rust_commons.Watch.Attach.{Watcher}
use rust_commons.Watch.Loop.{
  Received, event, watch_error, timed_out, disconnected, Turn, Sinks, signal_sinks, callback_sinks,
  WatchState, attach_round, fire_reload, handle, turn, run_loop, begin, watch_loop,
}
use rust_commons.Watch.Start.{
  Notify, Watching, after_spawn, after_create, spawn_signal, spawn_callback, watch_thread,
}

-- The two loops, in step: they differ in where they count alone.
pub record Mirrors {W : Type 0} (s c : WatchState W) : Type 0 where
  pub attached : c.attached ≡ s.attached
  pub pending : c.pending ≡ s.pending
  pub world : c.world ≡ s.world
  pub ended : c.ended ≡ s.ended
  pub callbacks : c.callbacks ≡ s.signals
  pub no_signals : c.signals ≡ 0
  pub no_callbacks : s.callbacks ≡ 0

module _ {W E : Type 0} (watcher : Watcher W E) (specs : List WatchSpec) (debounce : ℕ) where
  handle-Mirrors :
      (r : Received) (t : Turn) (s c : WatchState W)
      → Mirrors s c
      → Mirrors
          (handle watcher specs debounce signal_sinks r t s)
          (handle watcher specs debounce callback_sinks r t c)
  unfolding attach_round fire_reload
  handle-Mirrors (event kind paths) t s c m = ground arith
  handle-Mirrors watch_error t s c m = m
  handle-Mirrors timed_out t s c m = ground arith
  handle-Mirrors disconnected t s c m = ground arith

  turned-Mirrors :
      (stop : Bool) (t : Turn) (s c : WatchState W)
      → Mirrors s c
      → Mirrors
          (if stop
            then record s { ended = true }
            else handle watcher specs debounce signal_sinks t.received t s)
          (if stop
            then record c { ended = true }
            else handle watcher specs debounce callback_sinks t.received t c)
  turned-Mirrors true t s c m = record {
    attached = m.attached;
    pending = m.pending;
    world = m.world;
    ended = refl;
    callbacks = m.callbacks;
    no_signals = m.no_signals;
    no_callbacks = m.no_callbacks;
  }
  turned-Mirrors false t s c m = handle-Mirrors t.received t s c m

  turn-Mirrors :
      (t : Turn) (s c : WatchState W)
      → Mirrors s c
      → Mirrors
          (turn watcher specs debounce signal_sinks t s)
          (turn watcher specs debounce callback_sinks t c)
  unfolding turn
  turn-Mirrors t s c m = turned-Mirrors t.stop t s c m

  run_loop-Mirrors :
      (turns : List Turn) (s c : WatchState W)
      → Mirrors s c
      → Mirrors
          (run_loop watcher specs debounce signal_sinks turns s)
          (run_loop watcher specs debounce callback_sinks turns c)
  unfolding run_loop turn
  run_loop-Mirrors [] s c m = m
  run_loop-Mirrors (t ∷ turns) s c m =
      go-on s.ended c.ended m.ended s c m _ _ (run_loop-Mirrors turns _ _ (turn-Mirrors t s c m))
    where
      go-on :
          (a b : Bool)
          → b ≡ a
          → (s c : WatchState W) → Mirrors s c
          → (s' c' : WatchState W) → Mirrors s' c'
          → Mirrors (elim a [ true ↦ s | false ↦ s' ]) (elim b [ true ↦ c | false ↦ c' ])
      go-on true true e s c m s' c' n = m
      go-on false false e s c m s' c' n = n
      go-on true false e s c m s' c' n = cc
      go-on false true e s c m s' c' n = cc

  watch_loop-Mirrors :
      (turns : List Turn) (w : W)
      → Mirrors
          (watch_loop watcher specs debounce signal_sinks turns w)
          (watch_loop watcher specs debounce callback_sinks turns w)
  unfolding watch_loop begin
  watch_loop-Mirrors turns w = run_loop-Mirrors turns _ _ (record {
    attached = refl;
    pending = refl;
    world = refl;
    ended = refl;
    callbacks = refl;
    no_signals = refl;
    no_callbacks = refl;
  })

-- The two threads end with the same error, or their loops are in step.
abbrev pub BothMirror :
    {W J : Type 0}
    → Result (ConfigError J) (WatchState W)
    → Result (ConfigError J) (WatchState W)
    → Type 0
BothMirror (ok s) (ok c) = Mirrors s c
BothMirror (err e) (err f) = e ≡ f
BothMirror _ _ = ⊥

abbrev job_of : (specs : List WatchSpec) (debounce : ℕ) → Sinks → Watching
job_of specs debounce sinks = record { specs = specs; debounce = debounce; sinks = sinks }

after_spawn-ok :
    {W J : Type 0} (threads : ThreadBuilder W) (show_error : ErrorKind → Str) (job j : Watching)
    (x : Result ErrorKind (Unit {0}) × W) (w' : W)
    → after_spawn {J = J} threads show_error job x ≡ (ok j, w')
    → job ≡ j
after_spawn-ok threads show_error job j (ok _, w) w' h = cc
after_spawn-ok threads show_error job j (err e, w) w' h = cc

module _ {W E N : Type 0} (J : Type 0) (notify : Notify W N) (watcher : Watcher W E) where
  after_create-BothMirror :
      (specs : List WatchSpec) (debounce : ℕ) (turns : List Turn) (x : Result N (Unit {0}) × W)
      → BothMirror {J = J}
          (after_create notify watcher (job_of specs debounce signal_sinks) turns x)
          (after_create notify watcher (job_of specs debounce callback_sinks) turns x)
  after_create-BothMirror specs debounce turns (ok _, w) =
      watch_loop-Mirrors watcher specs debounce turns w
  after_create-BothMirror specs debounce turns (err e, w) = refl

  -- A watch with a callback announces what a watch with a channel of the same specs and debounce
  -- announces, where both threads could be spawned, and their loops start in the same state of the
  -- system and meet the same turns: as many callbacks are made as signals are sent, the one sends no
  -- signal and the other makes no callback, both leave the same directories attached, the same change
  -- noted and the same state of the system, and one loop ends where the other does. Where notify makes
  -- no watcher, both threads end with the same error.
  pub spawn_callback_mirrors :
      (threads : ThreadBuilder W) (show_error : ErrorKind → Str) (specs : List WatchSpec)
      (debounce : ℕ) (s c : Watching) (w v w' v' : W)
      → spawn_signal {J = J} threads show_error specs debounce w ≡ (ok s, w')
      → spawn_callback {J = J} threads show_error specs debounce v ≡ (ok c, v')
      → (turns : List Turn) (now : W)
      → BothMirror {J = J}
          (watch_thread notify watcher s turns now)
          (watch_thread notify watcher c turns now)
  unfolding spawn_signal spawn_callback watch_thread
  spawn_callback_mirrors threads show_error specs debounce s c w v w' v' h k turns now =
      let es = after_spawn-ok {J = J} threads show_error _ s _ w' h in
      let ec = after_spawn-ok {J = J} threads show_error _ c _ v' k in
      rw⁻¹ es (rw⁻¹ ec (after_create-BothMirror specs debounce turns (notify.create now)))
