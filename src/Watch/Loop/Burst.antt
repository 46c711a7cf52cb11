-- ===== src/Watch/Loop/Burst.antt =====
-- A burst of changes in config/watch.rs: events that come before the debounce has passed, and the
-- time-out after the last of them.
use rust_commons.Prelude.{
  ℕ, ◌+◌, ◌≤◌, ◌≡◌, refl, ap, Bool, true, false, Option, none, some, List, [], ◌∷◌, if◌then◌else◌,
}
use rust_commons.FilePath.{FilePath}
use rust_commons.Watch.{WatchSpec}
use rust_commons.Watch.Attach.{Watcher, attach_pending}
use rust_commons.Watch.Attach.Settled.{Settled, IsCalm, Settled-IsCalm}
use rust_commons.Watch.Loop.{
  EventKind, event, timed_out, Turn, Sinks, WatchState, timeout_of, is_relevant, attach_round, turn,
  run_loop,
}
use rust_commons.Watch.Loop.Debounce.{one_if, timeout_fires}

module _ {W E : Type 0} (watcher : Watcher W E) (specs : List WatchSpec) (debounce : ℕ)
    (sinks : Sinks) where
  -- The turns of a burst, with the last change before them: events, relevant or not, and then the
  -- time-out for which `recv_timeout` waited as long as it was asked to.
  pub data Burst : Option ℕ → List Turn → Type 0 where
    change :
        {pending : Option ℕ} {t : Turn} {turns : List Turn} (kind : EventKind)
        (paths : List FilePath)
        → t.stop ≡ false
        → t.received ≡ event kind paths
        → is_relevant specs kind paths ≡ true
        → Burst (some t.noted_at) turns
        → Burst pending (t ∷ turns)
    noise :
        {pending : Option ℕ} {t : Turn} {turns : List Turn} (kind : EventKind)
        (paths : List FilePath)
        → t.stop ≡ false
        → t.received ≡ event kind paths
        → is_relevant specs kind paths ≡ false
        → Burst pending turns
        → Burst pending (t ∷ turns)
    quiet :
        {t : Turn} (since : ℕ)
        → t.stop ≡ false
        → t.received ≡ timed_out
        → since ≤ t.waited_from
        → t.waited_from + timeout_of debounce t.waited_from (some since) ≤ t.noted_at
        → Burst (some since) (t ∷ [])

  pub turn-event :
      (t : Turn) (s : WatchState W) (w : W) (kind : EventKind) (paths : List FilePath)
      (relevant : Bool)
      → attach_pending watcher specs s.attached s.world
        ≡ record { newly = false; attached = s.attached; world = w }
      → t.stop ≡ false
      → t.received ≡ event kind paths
      → is_relevant specs kind paths ≡ relevant
      → turn watcher specs debounce sinks t s
        ≡ record s { pending = if relevant then some t.noted_at else s.pending; world = w }
  unfolding turn attach_round
  turn-event t s w kind paths true calm go r e = rw (go, r, calm, e)
  turn-event t s w kind paths false calm go r e = rw (go, r, calm, e)

  pub run_loop-turn :
      (t : Turn) (turns : List Turn) (s : WatchState W)
      → s.ended ≡ false
      → run_loop watcher specs debounce sinks (t ∷ turns) s
        ≡ run_loop watcher specs debounce sinks turns (turn watcher specs debounce sinks t s)
  unfolding run_loop
  run_loop-turn t turns s on = rw on

  -- With nothing new to attach, as long as `holds` is true of the system.
  module _ (holds : W → Type 0) (flags : List Bool) (calm : IsCalm watcher holds specs flags) where
    pub fires_once :
        {pending : Option ℕ} {turns : List Turn}
        → Burst pending turns
        → (s : WatchState W) → s.ended ≡ false
        → s.attached ≡ flags
        → holds s.world
        → s.pending ≡ pending
        → ((run_loop watcher specs debounce sinks turns s).pending ≡ none)
          × ((run_loop watcher specs debounce sinks turns s).signals
              ≡ s.signals + one_if sinks.reload_tx)
          × ((run_loop watcher specs debounce sinks turns s).callbacks
              ≡ s.callbacks + one_if sinks.on_reload)
    unfolding run_loop
    fires_once (change {t = t} {turns = turns} kind paths go r e more) s on same ok_now p =
        let (w, round, ok_then) = calm s.world ok_now in
        rw (run_loop-turn t turns s on, turn-event t s w kind paths true (rw same round) go r e)
          (fires_once more (record s { pending = some t.noted_at; world = w }) on same ok_then refl)
    fires_once (noise {t = t} {turns = turns} kind paths go r e more) s on same ok_now p =
        let (w, round, ok_then) = calm s.world ok_now in
        rw (run_loop-turn t turns s on, turn-event t s w kind paths false (rw same round) go r e)
          (fires_once more (record s { world = w }) on same ok_then p)
    fires_once (quiet {t = t} since go r began waited) s on same ok_now p =
        rw (run_loop-turn t [] s on) (
          timeout_fires watcher specs debounce sinks t s since go r p began (rw p waited)
            (rw same (ap (λ x. x.newly) (calm s.world ok_now).1)))

  -- In a loop that has not ended, a burst of changes is announced exactly once, whatever other
  -- events come in between: where the specs without a watch go on failing to attach, for as long as
  -- `holds` is true of the system, which their attempts leave true, the loop sends one reload to
  -- each of its sinks, at the time-out that ends the burst, and no change is pending then. So a
  -- spec that fails stops no other watch.
  pub changes_fire_once :
      (holds : W → Type 0) (turns : List Turn) (s : WatchState W)
      → s.ended ≡ false
      → Settled watcher holds specs s.attached
      → holds s.world
      → Burst s.pending turns
      → ((run_loop watcher specs debounce sinks turns s).pending ≡ none)
        × ((run_loop watcher specs debounce sinks turns s).signals
            ≡ s.signals + one_if sinks.reload_tx)
        × ((run_loop watcher specs debounce sinks turns s).callbacks
            ≡ s.callbacks + one_if sinks.on_reload)
  changes_fire_once holds turns s on settled ok_now burst =
      fires_once holds s.attached (Settled-IsCalm watcher holds settled) burst s on refl ok_now refl
