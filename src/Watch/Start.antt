-- ===== src/Watch/Start.antt =====
-- `spawn_signal` and `spawn_callback` of config/watch.rs, and the beginning of `watch_loop`, where
-- notify makes its watcher.
pub mod Mirror
mod Examples
use rust_commons.Prelude.{ℕ, List, ◌++◌, Result, ok, err, Io, Str, codes}
use rust_commons.StdIo.{ErrorKind, ThreadBuilder}
use rust_commons.Config.{ConfigError, other}
use rust_commons.Watch.{WatchSpec}
use rust_commons.Watch.Attach.{Watcher}
use rust_commons.Watch.Loop.{Turn, Sinks, signal_sinks, callback_sinks, WatchState, watch_loop}

-- `RecommendedWatcher::new`, and its error as a text
pub record Notify (W N : Type 0) : Type 0 where
  pub create : Io W N (Unit {0})
  pub show : N → Str

-- The arguments with which a thread calls `watch_loop`. Its stop flag is read in each turn.
pub record Watching : Type 0 where
  pub specs : List WatchSpec
  pub debounce : ℕ
  pub sinks : Sinks

module _ {W J : Type 0} (threads : ThreadBuilder W) (show_error : ErrorKind → Str) where
  abbrev after_spawn :
      Watching → Result ErrorKind (Unit {0}) × W → Result (ConfigError J) Watching × W
  after_spawn job (ok _, w) = (ok job, w)
  after_spawn job (err e, w) = (err (other (show_error e)), w)

  abbrev spawn_watch : Watching → Io W (ConfigError J) Watching
  spawn_watch job w = after_spawn job (threads.spawn (codes "config-watch") w)

  unfoldable pub spawn_signal :
      (specs : List WatchSpec) (debounce : ℕ) → Io W (ConfigError J) Watching
  spawn_signal specs debounce =
      spawn_watch (record { specs = specs; debounce = debounce; sinks = signal_sinks })

  unfoldable pub spawn_callback :
      (specs : List WatchSpec) (debounce : ℕ) → Io W (ConfigError J) Watching
  spawn_callback specs debounce =
      spawn_watch (record { specs = specs; debounce = debounce; sinks = callback_sinks })

module _ {W E N J : Type 0} (notify : Notify W N) (watcher : Watcher W E) where
  abbrev after_create :
      Watching → List Turn → Result N (Unit {0}) × W → Result (ConfigError J) (WatchState W)
  after_create job turns (ok _, w) =
      ok (watch_loop watcher job.specs job.debounce job.sinks turns w)
  after_create job turns (err e, w) = err (other (codes "inotify watcher: " ++ notify.show e))

  -- `watch_loop` from its first line; an error is logged by the thread, which ends.
  unfoldable pub watch_thread : Watching → List Turn → W → Result (ConfigError J) (WatchState W)
  watch_thread job turns w = after_create job turns (notify.create w)
