-- ===== src/Server/Accept.antt =====
-- `serve_listener` of ipc/server.rs: the accept loop, the threads that it spawns and the counter of
-- clients, one atomic action at a time. What a thread does inside `handle_conn` is in the parent;
-- here it runs, and then returns or panics.
pub mod Cap
mod Examples
use rust_commons.Prelude.{
  ℕ, zero, suc, ◌+◌, ◌-◌, ◌%◌, ◌^◌, Bool, true, false, Option, none, some, List, [], ◌∷◌, leb,
  if◌then◌else◌,
}

-- `usize`, on a 64-bit target
abbrev pub usize_mod : ℕ
usize_mod = 2 ^ 64

-- `AtomicUsize::fetch_add(1)` and `fetch_sub(1)` wrap around.
abbrev pub fetch_add : ℕ → ℕ
fetch_add n = (n + 1) % usize_mod

abbrev pub fetch_sub : ℕ → ℕ
fetch_sub n = (n + usize_mod - 1) % usize_mod

-- Where the accept loop stands: in `incoming()`; after a `load` below the cap; before `spawn`;
-- after `break`.
pub data Place : Type 0 where
  waiting counting spawning stopped : Place

pub record Loop : Type 0 where
  pub place : Place
  pub clients : ℕ  -- the atomic counter
  pub running : ℕ  -- threads inside `handle_conn`
  pub leaving : ℕ  -- threads behind `handle_conn` that have not yet come to `fetch_sub`
  pub panicked : ℕ  -- threads that a panic in `handle_conn` has ended
  pub rejected : ℕ  -- connections turned away as busy

abbrev pub start : Loop
start = record {
  place = waiting;
  clients = 0;
  running = 0;
  leaving = 0;
  panicked = 0;
  rejected = 0;
}

pub data Event : Type 0 where
  accepted : Event  -- `incoming()` gives a stream, and the counter is loaded
  failed : (path_exists : Bool) → Event  -- `incoming()` gives an error
  proceed : Event  -- the accept loop makes its next action
  returns panics : Event  -- `handle_conn` returns in some thread, or panics
  releases : Event  -- a thread that has returned makes its last action

-- An event that is not possible changes nothing.
module _ (max_clients : Option ℕ) where
  -- `hooks.reject` is taken to return here, on the thread of the loop.
  abbrev pub on_accepted : Place → Loop → Loop
  on_accepted waiting l = elim max_clients [
    | some max ↦
        if leb max l.clients
        then record l { rejected = l.rejected + 1 }
        else record l { place = counting }
    | none ↦ record l { place = spawning }
  ]
  on_accepted _ l = l

  abbrev pub on_failed : Place → Bool → Loop → Loop
  on_failed waiting false l = record l { place = stopped }
  on_failed _ _ l = l

  abbrev pub on_proceed : Place → Loop → Loop
  on_proceed counting l = record l { place = spawning; clients = fetch_add l.clients }
  on_proceed spawning l = record l { place = waiting; running = l.running + 1 }
  on_proceed _ l = l

  abbrev pub on_returns : ℕ → Loop → Loop
  on_returns zero l = l
  on_returns (suc n) l = record l { running = n; leaving = l.leaving + 1 }

  abbrev pub on_panics : ℕ → Loop → Loop
  on_panics zero l = l
  on_panics (suc n) l = record l { running = n; panicked = l.panicked + 1 }

  abbrev pub release_slot : Loop → ℕ
  release_slot l = elim max_clients [ some _ ↦ fetch_sub l.clients | none ↦ l.clients ]

  abbrev pub on_releases : ℕ → Loop → Loop
  on_releases zero l = l
  on_releases (suc n) l = record l { leaving = n; clients = release_slot l }

  unfoldable pub step : Event → Loop → Loop
  step accepted l = on_accepted l.place l
  step (failed path_exists) l = on_failed l.place path_exists l
  step proceed l = on_proceed l.place l
  step returns l = on_returns l.running l
  step panics l = on_panics l.running l
  step releases l = on_releases l.leaving l

  unfoldable pub run : List Event → Loop → Loop
  unfolding step
  run [] l = l
  run (e ∷ es) l = run es (step e l)
