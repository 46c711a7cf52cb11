-- ===== src/Watch/Loop/Debounce.antt =====
-- The debounce of config/watch.rs: when the loop announces a reload, and how often.
use rust_commons.Prelude.{
  ℕ, ◌+◌, ◌-◌, ◌≤◌, ◌<◌, ◌≡◌, refl, Bool, true, false, ◌||◌, Option, none, some, List, [], ◌∷◌,
  arith, leb, leb→le, ◌&&◌, if◌then◌else◌, Bool-cases, inl, inr,
}
use rust_commons.Watch.{WatchSpec}
use rust_commons.Watch.Attach.{Watcher, attach_pending}
use rust_commons.Watch.Loop.{
  Received, event, watch_error, timed_out, disconnected, Turn, Sinks, WatchState, timeout_of,
  is_relevant, attach_round, fire_reload, handle, turn, run_loop, begin, watch_loop, due,
}

abbrev pub one_if : Bool → ℕ
one_if true = 1
one_if false = 0

abbrev pub is_pending : Option ℕ → ℕ
is_pending none = 0
is_pending (some t) = 1

module _ {W E : Type 0} (watcher : Watcher W E) (specs : List WatchSpec) (debounce : ℕ)
    (sinks : Sinks) where
  -- The next round of attaching has something to report.
  abbrev pub news : WatchState W → Bool
  news s = (attach_pending watcher specs s.attached s.world).newly

  -- A time-out while a change is pending and nothing new can be attached announces the reload in
  -- that very turn, once on each sink: `recv_timeout` waits for as long as the code asks it to, and
  -- that is long enough.
  pub timeout_fires :
      (t : Turn) (s : WatchState W) (since : ℕ)
      → t.stop ≡ false
      → t.received ≡ timed_out
      → s.pending ≡ some since
      → since ≤ t.waited_from
      → t.waited_from + timeout_of debounce t.waited_from s.pending ≤ t.noted_at
      → news s ≡ false
      → ((turn watcher specs debounce sinks t s).pending ≡ none)
        × ((turn watcher specs debounce sinks t s).signals ≡ s.signals + one_if sinks.reload_tx)
        × ((turn watcher specs debounce sinks t s).callbacks ≡ s.callbacks + one_if sinks.on_reload)
  unfolding turn attach_round fire_reload timeout_of
  timeout_fires t s since go r p began waited quiet = ground arith

  -- The announcements on both sinks.
  abbrev pub announced : WatchState W → ℕ
  announced s = s.signals + s.callbacks

  -- What a turn that announced must have met.
  abbrev pub QuietSince : Turn → Option ℕ → Type 0
  QuietSince t pending =
      (t.stop ≡ false)
      × (t.received ≡ timed_out)
      × ((since : ℕ) × (pending ≡ some since) × (debounce ≤ t.noted_at - since))

  checked_quiet :
      (t : Turn) (s : WatchState W)
      → t.stop ≡ false
      → t.received ≡ timed_out
      → (pending : Option ℕ) → s.pending ≡ pending
      → announced s
        < announced (
            if due debounce t.noted_at pending
            then fire_reload watcher specs debounce sinks (record s { pending = none })
            else s)
      → QuietSince t pending
  checked_quiet t s go r none e h = absurd (omega arith)
  checked_quiet t s go r (some since) e h = elim (Bool-cases (leb debounce (t.noted_at - since))) [
    | inl late ↦ (go, r, (since, refl, leb→le debounce (t.noted_at - since) late))
    | inr early ↦ absurd (omega (arith, rw early at h))
  ]

  handled_quiet :
      (t : Turn) (s : WatchState W) (received : Received)
      → t.stop ≡ false
      → t.received ≡ received
      → announced s < announced (handle watcher specs debounce sinks received t s)
      → QuietSince t (if news s then some t.attached_at else s.pending)
  unfolding attach_round
  handled_quiet t s (event kind paths) go r h = absurd (ground arith)
  handled_quiet t s watch_error go r h = absurd (omega arith)
  handled_quiet t s timed_out go r h =
      checked_quiet t (attach_round watcher specs debounce sinks t.attached_at s) go r _ refl h
  handled_quiet t s disconnected go r h = absurd (omega arith)

  unstopped_quiet :
      (t : Turn) (s : WatchState W) (stop : Bool)
      → t.stop ≡ stop
      → announced s
        < announced (
            if stop
            then record s { ended = true }
            else handle watcher specs debounce sinks t.received t s)
      → QuietSince t (if news s then some t.attached_at else s.pending)
  unstopped_quiet t s true e h = absurd (omega arith)
  unstopped_quiet t s false e h = handled_quiet t s t.received e refl h

  -- A turn that announces a reload is a time-out with no stop, and the last change, a watch that
  -- this turn attached included, is at least the debounce ago.
  pub fires_after_quiet :
      (t : Turn) (s : WatchState W)
      → announced s < announced (turn watcher specs debounce sinks t s)
      → QuietSince t (if news s then some t.attached_at else s.pending)
  unfolding turn
  fires_after_quiet t s h = unstopped_quiet t s t.stop refl h

  -- The turns at which something changed: a watch was attached, or a relevant event came.
  abbrev pub relevant_event : Received → Bool
  relevant_event (event kind paths) = is_relevant specs kind paths
  relevant_event _ = false

  abbrev pub attaches : Received → Bool
  attaches (event kind paths) = true
  attaches timed_out = true
  attaches _ = false

  abbrev pub changes : Turn → WatchState W → ℕ
  changes t s = one_if (relevant_event t.received || (attaches t.received && news s))

  unfoldable pub all_changes : List Turn → WatchState W → ℕ
  all_changes [] s = 0
  all_changes (t ∷ turns) s = elim s.ended [
    | true ↦ 0
    | false ↦ changes t s + all_changes turns (turn watcher specs debounce sinks t s)
  ]

  handle-changes :
      (received : Received) (t : Turn) (s : WatchState W)
      → t.received ≡ received
      → ((handle watcher specs debounce sinks received t s).signals
            + is_pending (handle watcher specs debounce sinks received t s).pending
          ≤ s.signals + is_pending s.pending + changes t s)
        × ((handle watcher specs debounce sinks received t s).callbacks
              + is_pending (handle watcher specs debounce sinks received t s).pending
            ≤ s.callbacks + is_pending s.pending + changes t s)
  unfolding attach_round fire_reload
  handle-changes (event kind paths) t s e = ground arith
  handle-changes watch_error t s e = ground arith
  handle-changes timed_out t s e = ground arith
  handle-changes disconnected t s e = ground arith

  turn-changes :
      (t : Turn) (s : WatchState W)
      → ((turn watcher specs debounce sinks t s).signals
            + is_pending (turn watcher specs debounce sinks t s).pending
          ≤ s.signals + is_pending s.pending + changes t s)
        × ((turn watcher specs debounce sinks t s).callbacks
              + is_pending (turn watcher specs debounce sinks t s).pending
            ≤ s.callbacks + is_pending s.pending + changes t s)
  unfolding turn
  turn-changes t s = let (a, b) = handle-changes t.received t s refl in ground (arith, a, b)

  run_loop-changes :
      (turns : List Turn) (s : WatchState W)
      → ((run_loop watcher specs debounce sinks turns s).signals
          ≤ s.signals + is_pending s.pending + all_changes turns s)
        × ((run_loop watcher specs debounce sinks turns s).callbacks
            ≤ s.callbacks + is_pending s.pending + all_changes turns s)
  unfolding run_loop all_changes
  run_loop-changes [] s = omega arith
  run_loop-changes (t ∷ turns) s = elim (Bool-cases s.ended) [
    | inl over ↦ ground arith
    | inr on ↦
        let (a, b) = turn-changes t s in
        let (c, d) = run_loop-changes turns (turn watcher specs debounce sinks t s) in
        ground (arith, a, b, c, d)
  ]

  -- A reload has a cause, and one cause gives no two reloads: from the start of the loop, neither
  -- sink gets more reloads than there were turns at which something changed.
  pub watch_loop-le-changes :
      (turns : List Turn) (w : W)
      → ((watch_loop watcher specs debounce sinks turns w).signals
          ≤ all_changes turns (begin watcher specs debounce sinks w))
        × ((watch_loop watcher specs debounce sinks turns w).callbacks
            ≤ all_changes turns (begin watcher specs debounce sinks w))
  unfolding watch_loop begin
  watch_loop-le-changes turns w =
      let (a, b) = run_loop-changes turns (begin watcher specs debounce sinks w) in
      (omega (arith, a), omega (arith, b))
