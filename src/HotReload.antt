-- ===== src/HotReload.antt =====
-- The watch loop of config/watch.rs and the reload of config/mod.rs put together: a process whose
-- watch calls back into it, and in which others change the files.
pub mod Edits
pub mod Saved
mod Examples
use rust_commons.Prelude.{ℕ, Bool, true, false, List, [], ◌∷◌, ltb, if◌then◌else◌}
use rust_commons.Config.{Live, Reloading}
use rust_commons.Watch.{WatchSpec}
use rust_commons.Watch.Attach.{Watcher}
use rust_commons.Watch.Loop.{Turn, callback_sinks, WatchState, turn}

-- The state of the system is the `world` of the watch.
pub record Hot (W T : Type 0) : Type 0 where
  pub watch : WatchState W
  pub live : Live T

-- A round of the watch, or a change of the system by someone else.
pub data Step (W : Type 0) : Type 0 where
  turns : Turn → Step W
  edits : W → Step W

-- `on_reload` is the callback that the process gives to `spawn_callback`.
module _ {W E T : Type 0} (watcher : Watcher W E) (specs : List WatchSpec) (debounce : ℕ)
    (on_reload : Reloading W T → Reloading W T) where
  abbrev pub call_back : WatchState W → Live T → Hot W T
  call_back s live =
      let r = on_reload (record { world = s.world; live = live }) in
      record { watch = record s { world = r.world }; live = r.live }

  -- A callback that is made runs before the next round.
  abbrev pub after_turn : (calls : ℕ) → WatchState W → Live T → Hot W T
  after_turn calls s live =
      if ltb calls s.callbacks then call_back s live else record { watch = s; live = live }

  unfoldable pub hot_turn : Turn → Hot W T → Hot W T
  hot_turn t h =
      if h.watch.ended
      then h
      else after_turn h.watch.callbacks (turn watcher specs debounce callback_sinks t h.watch)
          h.live

  abbrev pub hot_step : Step W → Hot W T → Hot W T
  hot_step (turns t) h = hot_turn t h
  hot_step (edits w) h = record h { watch = record h.watch { world = w } }

  unfoldable pub run_steps : List (Step W) → Hot W T → Hot W T
  run_steps [] h = h
  run_steps (s ∷ steps) h = run_steps steps (hot_step s h)
