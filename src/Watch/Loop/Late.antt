-- ===== src/Watch/Loop/Late.antt =====
-- Directories that appear after config/watch.rs has begun to watch: the next poll attaches them, and
-- announces one reload for all that they may hold.
use rust_commons.Prelude.{
  ℕ, ◌+◌, ◌-◌, ◌≤◌, ◌<◌, ◌≡◌, refl, ap, ◌∙◌, Bool, true, false, ◌||◌, not, none, some, List, [],
  ◌∷◌, ok, arith, leb, length,
}
use rust_commons.FilePath.{FilePath}
use rust_commons.Watch.{WatchSpec}
use rust_commons.Watch.Attach.{
  Watcher, watch_dir_for, target_of, prepare, watch_target, attach_spec, attach_pending,
}
use rust_commons.Watch.Loop.{timed_out, Turn, Sinks, WatchState, attach_round, turn, run_loop}
use rust_commons.Watch.Loop.Debounce.{one_if}
use rust_commons.Watch.Attach.Settled.{AllAttached, nothing, also, AllAttached-IsCalm}
use rust_commons.Watch.Loop.Burst.{Burst, fires_once, run_loop-turn}

-- A flag that is not set.
abbrev pub missing : List Bool → Bool
missing [] = false
missing (flag ∷ flags) = not flag || missing flags

module _ {W E : Type 0} (watcher : Watcher W E) where
  -- What notify and the file system promise: a directory can be watched, and watching moves none.
  pub record IsWatchable : Type 0 where
    pub watch_ok :
        (p : FilePath) (recursive : Bool) (w : W)
        → watcher.is_dir p w ≡ true
        → (watcher.watch p recursive w).0 ≡ ok tt
    pub watch_still :
        (p q : FilePath) (recursive : Bool) (w : W)
        → watcher.is_dir q (watcher.watch p recursive w).1 ≡ watcher.is_dir q w

  -- What every spec asks to watch is a directory by now.
  abbrev pub AllDirs : List WatchSpec → W → Type 0
  AllDirs [] w = Unit {0}
  AllDirs (s ∷ specs) w = (watcher.is_dir (target_of watcher s w) w ≡ true) × AllDirs specs w

  module _ (able : IsWatchable) where
    open able use {watch_ok, watch_still}

    prepare-dir :
        (s : WatchSpec) (target : FilePath) (w : W)
        → watcher.is_dir target w ≡ true
        → prepare watcher s target w ≡ w
    prepare-dir s target w h = ground arith

    watch_target-dir :
        (s : WatchSpec) (target : FilePath) (w : W)
        → watcher.is_dir target w ≡ true
        → watch_target watcher s target w ≡ (true, (watcher.watch target s.recursive w).1)
    watch_target-dir s target w h = ground (arith, watch_ok target s.recursive w h)

    attach_spec-ready :
        (s : WatchSpec) (w : W)
        → watcher.is_dir (target_of watcher s w) w ≡ true
        → attach_spec watcher s w ≡ (true, (watcher.watch (target_of watcher s w) s.recursive w).1)
    unfolding attach_spec
    attach_spec-ready s w h =
        let target = target_of watcher s w in
        ap (λ v. watch_target watcher s target v) (prepare-dir s target w h)
        ∙ watch_target-dir s target w h

    -- One more watch leaves the targets where they are.
    target_of-still :
        (s : WatchSpec) (p : FilePath) (recursive : Bool) (w : W)
        → target_of watcher s (watcher.watch p recursive w).1 ≡ target_of watcher s w
    unfolding watch_dir_for
    target_of-still s p recursive w = rw (watch_still p s.path recursive w)

    AllDirs-watch :
        (specs : List WatchSpec) (p : FilePath) (recursive : Bool) (w : W)
        → AllDirs specs w
        → AllDirs specs (watcher.watch p recursive w).1
    AllDirs-watch [] p recursive w h = tt
    AllDirs-watch (s ∷ specs) p recursive w (here, rest) = (
      rw (target_of-still s p recursive w, watch_still p (target_of watcher s w) recursive w) here,
      AllDirs-watch specs p recursive w rest,
    )

    -- Then one round attaches all that is missing, and tells if something was.
    pub attach_pending-ready :
        (specs : List WatchSpec) (flags : List Bool) (w : W)
        → length flags ≡ length specs
        → AllDirs specs w
        → AllAttached (attach_pending watcher specs flags w).attached
          × ((attach_pending watcher specs flags w).newly ≡ missing flags)
    unfolding attach_pending
    attach_pending-ready [] [] w n h = (nothing, refl)
    attach_pending-ready [] (f ∷ flags) w n h = absurd (omega arith)
    attach_pending-ready (s ∷ specs) [] w n h = absurd (omega arith)
    attach_pending-ready (s ∷ specs) (true ∷ flags) w n (here, rest) =
        let (a, b) = attach_pending-ready specs flags w (omega arith) rest in (also a, b)
    attach_pending-ready (s ∷ specs) (false ∷ flags) w n (here, rest) =
        let target = target_of watcher s w in
        let (a, b) =
          attach_pending-ready specs flags (watcher.watch target s.recursive w).1 (omega arith)
            (AllDirs-watch specs target s.recursive w rest) in
        rw (attach_spec-ready s w here) (also a, refl)

module _ {W E : Type 0} (watcher : Watcher W E) (able : IsWatchable watcher)
    (specs : List WatchSpec) (debounce : ℕ) (sinks : Sinks) where
  poll-news :
      (t : Turn) (s : WatchState W)
      → t.stop ≡ false
      → t.received ≡ timed_out
      → t.attached_at ≤ t.noted_at
      → t.noted_at < t.attached_at + debounce
      → (attach_pending watcher specs s.attached s.world).newly ≡ true
      → turn watcher specs debounce sinks t s ≡ record s {
        attached = (attach_pending watcher specs s.attached s.world).attached;
        world = (attach_pending watcher specs s.attached s.world).world;
        pending = some t.attached_at;
      }
  unfolding turn attach_round
  poll-news t s go r order soon news =
      let early : leb debounce (t.noted_at - t.attached_at) ≡ false = ground arith in
      rw (go, r, news, early)

  -- Where notify can watch every directory that is there, directories that were missing are picked
  -- up by the first poll at which all of them are there, if it takes less than the debounce itself:
  -- every spec is then attached, and after a burst that ends with the debounce, of whatever events
  -- or none, one reload has gone to each sink, and no change is pending.
  pub late_dirs_announced :
      (t : Turn) (turns : List Turn) (s : WatchState W)
      → s.ended ≡ false
      → length s.attached ≡ length specs
      → missing s.attached ≡ true
      → AllDirs watcher specs s.world
      → t.stop ≡ false
      → t.received ≡ timed_out
      → t.attached_at ≤ t.noted_at
      → t.noted_at < t.attached_at + debounce
      → Burst watcher specs debounce sinks (some t.attached_at) turns
      → AllAttached (turn watcher specs debounce sinks t s).attached
        × ((run_loop watcher specs debounce sinks (t ∷ turns) s).pending ≡ none)
        × ((run_loop watcher specs debounce sinks (t ∷ turns) s).signals
            ≡ s.signals + one_if sinks.reload_tx)
        × ((run_loop watcher specs debounce sinks (t ∷ turns) s).callbacks
            ≡ s.callbacks + one_if sinks.on_reload)
  late_dirs_announced t turns s on n gap dirs go r order soon burst =
      let (all, news) = attach_pending-ready watcher able specs s.attached s.world n dirs in
      let round = attach_pending watcher specs s.attached s.world in
      let x = poll-news t s go r order soon (news ∙ gap) in
      let e = run_loop-turn watcher specs debounce sinks t turns s on in
      let (a, b, c) =
        fires_once watcher specs debounce sinks (λ w. Unit {0}) round.attached
          (AllAttached-IsCalm watcher specs round.attached all) burst
          (record s {
            attached = round.attached;
            world = round.world;
            pending = some t.attached_at;
          })
          on refl tt refl in
      (rw x all, rw (e, x) a, rw (e, x) b, rw (e, x) c)
