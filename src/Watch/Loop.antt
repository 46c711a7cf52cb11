-- ===== src/Watch/Loop.antt =====
-- The event loop of config/watch.rs, one round after another. What a round meets is a `Turn`: the
-- stop flag, what `recv_timeout` returned, and the readings of the clock, in milliseconds.
mod Examples
mod UnitTests
pub mod Debounce
pub mod Burst
pub mod Late
use rust_commons.Prelude.{
  ℕ, zero, suc, ◌+◌, ◌-◌, Bool, true, false, ◌&&◌, ◌||◌, Option, none, some, List, [], ◌∷◌, leb,
  if◌then◌else◌,
}
use rust_commons.FilePath.{FilePath}
use rust_commons.Watch.{WatchSpec, PathFilter, is_relevant_path}
use rust_commons.Watch.Attach.{Watcher, attach_pending}

-- `DEFAULT_DEBOUNCE`
abbrev pub default_debounce : ℕ
default_debounce = 300

-- `notify::EventKind`
pub data EventKind : Type 0 where
  any_kind access create modify remove other_kind : EventKind

-- What `raw_rx.recv_timeout(timeout)` gives.
pub data Received : Type 0 where
  event : EventKind → (paths : List FilePath) → Received
  watch_error timed_out disconnected : Received

-- `waited_from` is read for the timeout, `attached_at` behind `attach_pending`, and `noted_at` for
-- the event or the last check of the debounce.
pub record Turn : Type 0 where
  pub stop : Bool
  pub received : Received
  pub waited_from : ℕ
  pub attached_at : ℕ
  pub noted_at : ℕ

-- Where a reload is announced: `spawn_signal` gives a sender, `spawn_callback` a callback.
pub record Sinks : Type 0 where
  pub reload_tx : Bool
  pub on_reload : Bool

abbrev pub signal_sinks : Sinks
signal_sinks = record { reload_tx = true; on_reload = false }

abbrev pub callback_sinks : Sinks
callback_sinks = record { reload_tx = false; on_reload = true }

-- The variables of the loop, with the signals sent and the callbacks made so far.
pub record WatchState (W : Type 0) : Type 0 where
  pub attached : List Bool
  pub pending : Option ℕ
  pub world : W
  pub signals : ℕ
  pub callbacks : ℕ
  pub ended : Bool

-- `vec![false; n]`
abbrev pub all_false : List WatchSpec → List Bool
all_false [] = []
all_false (s ∷ specs) = false ∷ all_false specs

-- `t.elapsed()` at a reading of the clock, which never goes back
abbrev pub elapsed : ℕ → ℕ → ℕ
elapsed now t = now - t

-- The argument of `recv_timeout`.
unfoldable pub timeout_of : (debounce now : ℕ) → Option ℕ → ℕ
timeout_of debounce now none = 1000
timeout_of debounce now (some t) =
    if leb debounce (elapsed now t) then 0 else debounce - elapsed now t

abbrev pub is_change : EventKind → Bool
is_change access = false
is_change other_kind = false
is_change _ = true

unfoldable pub any_spec : FilePath → List WatchSpec → Bool
any_spec path [] = false
any_spec path (s ∷ specs) = is_relevant_path path s.filter || any_spec path specs

unfoldable pub any_path : List FilePath → List WatchSpec → Bool
any_path [] specs = false
any_path (p ∷ paths) specs = any_spec p specs || any_path paths specs

unfoldable pub is_relevant : List WatchSpec → EventKind → List FilePath → Bool
is_relevant specs kind paths = is_change kind && any_path paths specs

abbrev pub due : (debounce now : ℕ) → Option ℕ → Bool
due debounce now none = false
due debounce now (some t) = leb debounce (elapsed now t)

module _ {W E : Type 0} (watcher : Watcher W E) (specs : List WatchSpec) (debounce : ℕ)
    (sinks : Sinks) where
  -- `attach_pending`, and a new watch counts as a change.
  unfoldable pub attach_round : (at : ℕ) → WatchState W → WatchState W
  attach_round at s =
      let r = attach_pending watcher specs s.attached s.world in
      record s {
        attached = r.attached;
        world = r.world;
        pending = if r.newly then some at else s.pending;
      }

  unfoldable pub fire_reload : WatchState W → WatchState W
  fire_reload s = record s {
    signals = if sinks.reload_tx then s.signals + 1 else s.signals;
    callbacks = if sinks.on_reload then s.callbacks + 1 else s.callbacks;
  }

  abbrev pub note_event : EventKind → List FilePath → (now : ℕ) → WatchState W → WatchState W
  note_event kind paths now s =
      if is_relevant specs kind paths then record s { pending = some now } else s

  abbrev pub check_debounce : (now : ℕ) → WatchState W → WatchState W
  check_debounce now s =
      if due debounce now s.pending then fire_reload (record s { pending = none }) else s

  abbrev pub handle : Received → Turn → WatchState W → WatchState W
  handle (event kind paths) t s = note_event kind paths t.noted_at (attach_round t.attached_at s)
  handle watch_error t s = s
  handle timed_out t s = check_debounce t.noted_at (attach_round t.attached_at s)
  handle disconnected t s = record s { ended = true }

  unfoldable pub turn : Turn → WatchState W → WatchState W
  turn t s = if t.stop then record s { ended = true } else handle t.received t s

  unfoldable pub run_loop : List Turn → WatchState W → WatchState W
  unfolding turn
  run_loop [] s = s
  run_loop (t ∷ turns) s = elim s.ended [ true ↦ s | false ↦ run_loop turns (turn t s) ]

  -- The state before the loop: one round of attaching, which counts as no change.
  unfoldable pub begin : W → WatchState W
  begin w =
      let r = attach_pending watcher specs (all_false specs) w in
      record {
        attached = r.attached;
        pending = none;
        world = r.world;
        signals = 0;
        callbacks = 0;
        ended = false;
      }

  unfoldable pub watch_loop : List Turn → W → WatchState W
  unfolding begin run_loop
  watch_loop turns w = run_loop turns (begin w)
