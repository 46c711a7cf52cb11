-- ===== src/Server/Accept/Examples.antt =====
-- Tests of the accept loop of ipc/server.rs and its theorems at concrete schedules.
use rust_commons.Prelude.{◌≡◌, refl, some, List, [], ◌∷◌, ◌++◌, arith}
use rust_commons.Server.Accept.{
  waiting, start, Event, accepted, proceed, returns, panics, releases, run,
}
use rust_commons.Server.Accept.Cap.{deaf_after_panics}

-- One connection is accepted, counted and handed to a thread.
abbrev one_client : List Event
one_client = accepted ∷ proceed ∷ proceed ∷ []

abbrev one_panic : List Event
one_panic = accepted ∷ proceed ∷ proceed ∷ panics ∷ []

busy_at_cap : (run (some 1) (one_client ++ accepted ∷ []) start).rejected ≡ 1
unfolding run
busy_at_cap = refl

slot_comes_back :
    (run (some 1) (one_client ++ returns ∷ releases ∷ accepted ∷ []) start).rejected ≡ 0
unfolding run
slot_comes_back = refl

now_waiting : (run (some 1) one_client start).place ≡ waiting
unfolding run
now_waiting = refl

all_panicked : (run (some 1) one_panic start).panicked ≡ 1
unfolding run
all_panicked = refl

deaf_after_panics_example :
    ((run (some 1) one_client (run (some 1) one_panic start)).running ≡ 0)
    × ((run (some 1) one_client (run (some 1) one_panic start)).clients ≡ 1)
deaf_after_panics_example = deaf_after_panics 1 one_panic one_client (omega arith) all_panicked
