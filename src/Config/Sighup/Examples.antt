-- ===== src/Config/Sighup/Examples.antt =====
-- Tests of config/sighup.rs with a system that lists the registrations, or has no room for more.
use rust_commons.Prelude.{ℕ, ◌≡◌, refl, List, [], ◌∷◌, ok, err}
use rust_commons.StdIo.{other}
use rust_commons.Config.Sighup.{SignalHook, install_sighup_flag}

abbrev listing : SignalHook (List (ℕ × ℕ)) ℕ ℕ
listing = record { register = λ signal flag w. (ok 5, (signal, flag) ∷ w) }

abbrev full : SignalHook (List (ℕ × ℕ)) ℕ ℕ
full = record { register = λ signal flag w. (err (other 22), w) }

sighup_registered : install_sighup_flag listing 7 [] ≡ (ok tt, (1, 7) ∷ [])
unfolding install_sighup_flag
sighup_registered = refl

refusal_passed_on : install_sighup_flag full 7 [] ≡ (err (other 22), [])
unfolding install_sighup_flag
refusal_passed_on = refl
