-- ===== src/HotReload/Edits.antt =====
-- A change of a configuration file goes live: config/watch.rs with `try_reload` of config/mod.rs as
-- its callback.
use rust_commons.Prelude.{
  ℕ, ◌+◌, ◌≤◌, ◌≡◌, refl, true, false, Option, none, some, List, [], ◌∷◌, arith, leb, ltb,
}
use rust_commons.FilePath.{FilePath}
use rust_commons.Config.{Load, Reloading, snapshot, try_reload}
use rust_commons.Config.Reload.{value_after, last_loaded, reloads, snapshot-reloads}
use rust_commons.Watch.{WatchSpec}
use rust_commons.Watch.Attach.{Watcher}
use rust_commons.Watch.Loop.{
  EventKind, event, timed_out, Turn, callback_sinks, WatchState, elapsed, timeout_of, is_relevant,
  attach_round, fire_reload, turn,
}
use rust_commons.Watch.Attach.Settled.{AllAttached, attach_pending-AllAttached}
use rust_commons.Watch.Loop.Burst.{turn-event}
use rust_commons.HotReload.{Hot, Step, turns, edits, call_back, hot_turn, run_steps}

-- The system behind the edits of a schedule.
unfoldable pub last_edit : {W : Type 0} → List (Step W) → W → W
last_edit [] w = w
last_edit (edits v ∷ steps) w = last_edit steps v
last_edit (turns t ∷ steps) w = last_edit steps w

-- `try_reload`, whose error the callback drops.
abbrev pub reload : {W J T : Type 0} → Load W J T → Reloading W T → Reloading W T
reload source r = (try_reload source r).1

module _ {W : Type 0} (specs : List WatchSpec) (debounce : ℕ) where
  -- A burst of `Watch.Loop.Burst`, with edits anywhere before the time-out that ends it.
  pub data Editing : Option ℕ → List (Step W) → Type 0 where
    edit :
        {pending : Option ℕ} {steps : List (Step W)} (w : W)
        → Editing pending steps
        → Editing pending (edits w ∷ steps)
    change :
        {pending : Option ℕ} {t : Turn} {steps : List (Step W)} (kind : EventKind)
        (paths : List FilePath)
        → t.stop ≡ false
        → t.received ≡ event kind paths
        → is_relevant specs kind paths ≡ true
        → Editing (some t.noted_at) steps
        → Editing pending (turns t ∷ steps)
    noise :
        {pending : Option ℕ} {t : Turn} {steps : List (Step W)} (kind : EventKind)
        (paths : List FilePath)
        → t.stop ≡ false
        → t.received ≡ event kind paths
        → is_relevant specs kind paths ≡ false
        → Editing pending steps
        → Editing pending (turns t ∷ steps)
    quiet :
        {t : Turn} (since : ℕ)
        → t.stop ≡ false
        → t.received ≡ timed_out
        → since ≤ t.waited_from
        → t.waited_from + timeout_of debounce t.waited_from (some since) ≤ t.noted_at
        → Editing (some since) (turns t ∷ [])

module _ {W E : Type 0} (watcher : Watcher W E) (specs : List WatchSpec) (debounce : ℕ) where
  turn-quiet :
      (t : Turn) (s : WatchState W) (since : ℕ)
      → AllAttached s.attached
      → s.pending ≡ some since
      → t.stop ≡ false
      → t.received ≡ timed_out
      → since ≤ t.waited_from
      → t.waited_from + timeout_of debounce t.waited_from (some since) ≤ t.noted_at
      → turn watcher specs debounce callback_sinks t s
        ≡ record s { pending = none; callbacks = s.callbacks + 1 }
  unfolding turn attach_round fire_reload timeout_of
  turn-quiet t s since all p go r began waited =
      let passed : leb debounce (elapsed t.noted_at since) ≡ true = ground arith in
      rw (go, r, attach_pending-AllAttached watcher specs s.attached s.world all, p, passed)

  module _ {J T : Type 0} (source : Load W J T) where
    silent :
        (t : Turn) (h : Hot W T) (s : WatchState W)
        → h.watch.ended ≡ false
        → turn watcher specs debounce callback_sinks t h.watch ≡ s
        → s.callbacks ≡ h.watch.callbacks
        → hot_turn watcher specs debounce (reload source) t h ≡ record { watch = s; live = h.live }
    unfolding hot_turn
    silent t h s on e same =
        let quiet : ltb h.watch.callbacks s.callbacks ≡ false = ground arith in
        rw (e, quiet, on) refl

    calling :
        (t : Turn) (h : Hot W T) (s : WatchState W)
        → h.watch.ended ≡ false
        → turn watcher specs debounce callback_sinks t h.watch ≡ s
        → s.callbacks ≡ h.watch.callbacks + 1
        → hot_turn watcher specs debounce (reload source) t h
          ≡ call_back watcher specs debounce (reload source) s h.live
    unfolding hot_turn
    calling t h s on e more =
        let calls : ltb h.watch.callbacks s.callbacks ≡ true = ground arith in
        rw (e, calls, on) refl

    -- The end of a burst that began at `h`.
    record BurstEnd (steps : List (Step W)) (h : Hot W T) (h' : Hot W T) : Type 0 where
      pub value :
          snapshot h'.live
          ≡ value_after source (snapshot h.live) (source.load (last_edit steps h.watch.world)).0
      pub settled : h'.watch.pending ≡ none
      pub once : h'.watch.callbacks ≡ h.watch.callbacks + 1

    edits-BurstEnd :
        {pending : Option ℕ} {steps : List (Step W)}
        → Editing specs debounce pending steps
        → (h : Hot W T) → h.watch.ended ≡ false
        → AllAttached h.watch.attached
        → h.watch.pending ≡ pending
        → BurstEnd steps h (run_steps watcher specs debounce (reload source) steps h)
    unfolding run_steps last_edit reloads last_loaded
    edits-BurstEnd (edit w more) h on all p =
        let live =
          edits-BurstEnd more (record h { watch = record h.watch { world = w } }) on all p in
        record { value = live.value; settled = live.settled; once = live.once }
    edits-BurstEnd (change {t = t} {steps = steps} kind paths go r e more) h on all p =
        let s = record h.watch { pending = some t.noted_at } in
        let live = edits-BurstEnd more (record h { watch = s }) on all refl in
        rw
          (silent t h s on
            (turn-event watcher specs debounce callback_sinks t h.watch h.watch.world kind paths
              true (attach_pending-AllAttached watcher specs h.watch.attached h.watch.world all) go
              r e)
            refl)
          (record { value = live.value; settled = live.settled; once = live.once })
    edits-BurstEnd (noise {t = t} {steps = steps} kind paths go r e more) h on all p =
        let live = edits-BurstEnd more h on all p in
        rw
          (silent t h h.watch on
            (turn-event watcher specs debounce callback_sinks t h.watch h.watch.world kind paths
              false (attach_pending-AllAttached watcher specs h.watch.attached h.watch.world all) go
              r e)
            refl)
          (record { value = live.value; settled = live.settled; once = live.once })
    edits-BurstEnd (quiet {t = t} since go r began waited) h on all p =
        let s = record h.watch { pending = none; callbacks = h.watch.callbacks + 1 } in
        rw (calling t h s on (turn-quiet t h.watch since all p go r began waited) refl) (record {
          value = snapshot-reloads source 1 (record { world = h.watch.world; live = h.live });
          settled = refl;
          once = refl;
        })

    -- With every watch in place, and `try_reload` as the callback, a burst of events and of edits that
    -- others make before the time-out that ends it: what is live then is the value of the system as the
    -- last edit has left it, or, if that cannot be loaded, the value that was live before the burst.
    -- One reload is made for all of the burst, and no change is pending behind it.
    pub edits_go_live :
        (steps : List (Step W)) (h : Hot W T)
        → h.watch.ended ≡ false
        → AllAttached h.watch.attached
        → Editing specs debounce h.watch.pending steps
        → let h' = run_steps watcher specs debounce (reload source) steps h in
          (snapshot h'.live
            ≡ value_after source (snapshot h.live) (source.load (last_edit steps h.watch.world)).0)
          × (h'.watch.pending ≡ none)
          × (h'.watch.callbacks ≡ h.watch.callbacks + 1)
    edits_go_live steps h on all burst =
        let live = edits-BurstEnd burst h on all refl in (live.value, live.settled, live.once)
