-- ===== src/Config/Shared/Examples.antt =====
-- Two threads that reload one live value of config/mod.rs, at a concrete system: the system is what the
-- file says, and 0 cannot be loaded.
use rust_commons.Prelude.{ℕ, zero, suc, ◌≡◌, ◌≢◌, refl, none, List, [], ◌∷◌, ok, err, codes, Member}
use rust_commons.Config.{other, Load, new, snapshot}
use rust_commons.Config.Shared.{Shared, Act, loads, swaps, edits, run_acts, reload_act}
use rust_commons.Config.Shared.History.{loaded, snapshot_was_loaded, older_load_wins}

abbrev file : Load ℕ ℕ ℕ
file = record {
  load = elim [ zero ↦ (err (other (codes "empty")), zero) | suc n ↦ (ok (suc n), suc n) ];
}

abbrev at_rest : Shared ℕ ℕ
at_rest = record { world = 5; live = new 4; held = λ i. none }

-- The loads of two threads cross, and one of a third fails.
abbrev crossing : List (Act ℕ)
crossing = loads 0 ∷ edits 6 ∷ loads 1 ∷ swaps 1 ∷ edits 0 ∷ loads 2 ∷ swaps 0 ∷ []

crossing_loads : loaded file crossing at_rest (4 ∷ []) ≡ 6 ∷ 5 ∷ 4 ∷ []
unfolding loaded reload_act
crossing_loads = refl

snapshot_was_loaded_example :
    Member
      (snapshot (run_acts file crossing at_rest).live)
      (loaded file crossing at_rest (snapshot at_rest.live ∷ []))
snapshot_was_loaded_example = snapshot_was_loaded file crossing at_rest (λ i. refl)

zero_is_not_one : ◌≢◌ {A = ℕ} 0 1
zero_is_not_one e = cc

older_load_wins_example :
    let t = run_acts file (loads 0 ∷ edits 6 ∷ loads 1 ∷ swaps 1 ∷ swaps 0 ∷ []) at_rest in
    (snapshot t.live ≡ 5) × (t.world ≡ 6) × (t.held 0 ≡ none) × (t.held 1 ≡ none)
older_load_wins_example = older_load_wins file 0 1 at_rest 6 5 6 zero_is_not_one refl refl refl refl
