-- ===== src/Config/Shared.antt =====
-- Several threads that reload one `Live` of config/mod.rs, as a watch and a signal may: `try_reload` is
-- the load and then the replacement, under the lock, and between the two any other thread may act.
pub mod History
mod Examples
use rust_commons.Prelude.{
  ℕ, Bool, Option, none, some, List, [], ◌∷◌, Result, ok, err, ◌==◌, if◌then◌else◌,
}
use rust_commons.Config.{ConfigError, Live, replace, Load}

-- `held` is what each thread has loaded and not yet put into the live value.
pub record Shared (W T : Type 0) : Type 0 where
  pub world : W
  pub live : Live T
  pub held : ℕ → Option T

-- A thread loads, or swaps in what it has loaded; or someone else changes the system.
pub data Act (W : Type 0) : Type 0 where
  loads swaps : (thread : ℕ) → Act W
  edits : W → Act W

module _ {W J T : Type 0} (source : Load W J T) where
  abbrev pub hold : ℕ → Option T → (ℕ → Option T) → ℕ → Option T
  hold i o held j = if i == j then o else held j

  -- `source.load()?`
  abbrev pub after_load : ℕ → Result (ConfigError J) T × W → Shared W T → Shared W T
  after_load i (ok next, w) s = record s { world = w; held = hold i (some next) s.held }
  after_load i (err e, w) s = record s { world = w }

  abbrev pub on_loads : ℕ → Option T → Shared W T → Shared W T
  on_loads i none s = after_load i (source.load s.world) s
  on_loads i (some _) s = s

  -- `live.replace(next)`
  abbrev pub on_swaps : ℕ → Option T → Shared W T → Shared W T
  on_swaps i none s = s
  on_swaps i (some next) s = record s { live = replace next s.live; held = hold i none s.held }

  -- An action that the thread is not at changes nothing.
  unfoldable pub reload_act : Act W → Shared W T → Shared W T
  reload_act (loads i) s = on_loads i (s.held i) s
  reload_act (swaps i) s = on_swaps i (s.held i) s
  reload_act (edits w) s = record s { world = w }

  unfoldable pub run_acts : List (Act W) → Shared W T → Shared W T
  unfolding reload_act
  run_acts [] s = s
  run_acts (a ∷ acts) s = run_acts acts (reload_act a s)
