-- ===== src/Server/Accept/Cap.antt =====
-- The cap on clients in ipc/server.rs, under every interleaving of the accept loop and the threads.
use rust_commons.Prelude.{ℕ, ◌+◌, ◌≤◌, ◌<◌, ◌≡◌, ◌↔◌, Option, some, List, [], ◌∷◌, arith}
use rust_commons.Server.Accept.{
  usize_mod, Place, waiting, counting, spawning, stopped, Loop, start, Event, accepted, failed,
  proceed, returns, panics, releases, step, run,
}

-- The slot of a connection that is counted and has no thread yet.
abbrev pub in_hand : Place → ℕ
in_hand spawning = 1
in_hand _ = 0

-- Room for the connection that has passed the test.
abbrev pub admitted : Place → ℕ
admitted counting = 1
admitted _ = 0

-- Every slot is held by a thread that runs, by one that is about to give it back, by one that has
-- panicked, or by the connection in hand.
pub record IsCounted (max : ℕ) (l : Loop) : Type 0 where
  pub slots : l.clients ≡ l.running + l.leaving + l.panicked + in_hand l.place
  pub room : l.clients + admitted l.place ≤ max

module _ (max : ℕ) (fits : max < usize_mod) where
  step-IsCounted : (e : Event) (l : Loop) → IsCounted max l → IsCounted max (step (some max) e l)
  unfolding step
  step-IsCounted accepted l h = ground arith
  step-IsCounted (failed b) l h = ground arith
  step-IsCounted proceed l h = ground arith
  step-IsCounted returns l h = ground arith
  step-IsCounted panics l h = ground arith
  step-IsCounted releases l h = ground arith

  pub run-IsCounted :
      (es : List Event) (l : Loop) → IsCounted max l → IsCounted max (run (some max) es l)
  unfolding run
  run-IsCounted [] l h = h
  run-IsCounted (e ∷ es) l h = run-IsCounted es (step (some max) e l) (step-IsCounted e l h)

rejected_iff_full_at :
    (max : ℕ) (l : Loop)
    → IsCounted max l
    → l.place ≡ waiting
    → ((step (some max) accepted l).rejected ≡ l.rejected + 1)
      ↔ (l.running + l.leaving + l.panicked ≡ max)
unfolding step
rejected_iff_full_at max l h w = (λ r. ground arith, λ full. ground arith)

idle_counter_at :
    (max : ℕ) (l : Loop)
    → IsCounted max l
    → l.place ≡ waiting
    → l.running ≡ 0
    → l.leaving ≡ 0
    → l.clients ≡ l.panicked
idle_counter_at max l h w r v = ground arith

full_of_panics :
    (max : ℕ) (l : Loop) → IsCounted max l → max ≤ l.panicked → (l.running ≡ 0) × (l.clients ≡ max)
full_of_panics max l h full = omega (arith, h.slots, h.room)

start-IsCounted : (max : ℕ) → IsCounted max start
start-IsCounted max = omega arith

module _ (max : ℕ) (fits : max < usize_mod) (es : List Event) where
  abbrev later : Loop
  later = run (some max) es start

  later-IsCounted : IsCounted max later
  later-IsCounted = run-IsCounted max fits es start (start-IsCounted max)

  -- Whatever the schedule, and for a cap that a `usize` holds: no more threads than the cap serve
  -- clients at a time, the counter is never above the cap, and it never wraps around: it is the
  -- number of slots in use.
  pub run_within_cap :
      (later.running + later.leaving + later.panicked + in_hand later.place ≡ later.clients)
      × (later.clients ≤ max)
  run_within_cap = omega (arith, later-IsCounted.slots, later-IsCounted.room)

  -- On any schedule, with a cap that a `usize` holds: when the accept loop waits, a new connection
  -- is turned away exactly if every slot is in use, by a thread that runs or has not yet given its
  -- slot back, or by one that has panicked.
  pub rejected_iff_full :
      later.place ≡ waiting
      → ((step (some max) accepted later).rejected ≡ later.rejected + 1)
        ↔ (later.running + later.leaving + later.panicked ≡ max)
  rejected_iff_full w = rejected_iff_full_at max later later-IsCounted w

  -- When no thread is left, the counter is the number of threads that have panicked, so it is back
  -- at 0 only if none has.
  pub idle_counter :
      later.place ≡ waiting → later.running ≡ 0 → later.leaving ≡ 0 → later.clients ≡ later.panicked
  idle_counter w r v = idle_counter_at max later later-IsCounted w r v

step-panicked-le :
    (max_clients : Option ℕ) (e : Event) (l : Loop) → l.panicked ≤ (step max_clients e l).panicked
unfolding step
step-panicked-le m e l = ground arith

run-panicked-le :
    (max_clients : Option ℕ) (es : List Event) (l : Loop)
    → l.panicked ≤ (run max_clients es l).panicked
unfolding run
run-panicked-le m [] l = omega arith
run-panicked-le m (e ∷ es) l =
    omega (arith, step-panicked-le m e l, run-panicked-le m es (step m e l))

-- Once as many threads have panicked as the cap, which a `usize` holds, allows clients, the server
-- is deaf: however the schedule goes on, no thread serves a client again, and the counter stays at
-- the cap.
pub deaf_after_panics :
    (max : ℕ) (es later_es : List Event)
    → max < usize_mod
    → (run (some max) es start).panicked ≡ max
    → ((run (some max) later_es (run (some max) es start)).running ≡ 0)
      × ((run (some max) later_es (run (some max) es start)).clients ≡ max)
deaf_after_panics max es later_es fits full =
    let l = run (some max) es start in
    full_of_panics max (run (some max) later_es l)
      (run-IsCounted max fits later_es l (run-IsCounted max fits es start (start-IsCounted max)))
      (omega (arith, run-panicked-le (some max) later_es l))

step-stopped :
    (max_clients : Option ℕ) (e : Event) (l : Loop)
    → l.place ≡ stopped
    → ((step max_clients e l).place ≡ stopped)
      × ((step max_clients e l).running + (step max_clients e l).leaving ≤ l.running + l.leaving)
unfolding step
step-stopped m e l h = ground arith

-- After the accept loop has ended, no schedule makes it accept again, and the threads can only
-- become fewer.
pub stopped_forever :
    (max_clients : Option ℕ) (es : List Event) (l : Loop)
    → l.place ≡ stopped
    → ((run max_clients es l).place ≡ stopped)
      × ((run max_clients es l).running + (run max_clients es l).leaving ≤ l.running + l.leaving)
unfolding run
stopped_forever m [] l h = (h, omega arith)
stopped_forever m (e ∷ es) l h =
    let now = step-stopped m e l h in
    let (p, q) = stopped_forever m es (step m e l) now.0 in (p, omega (arith, now.1))
