-- ===== src/Fleet.antt =====
-- The daemons of one data root: each binds the socket that datadir.rs gives its name by ipc/bind.rs,
-- and stops some time later. What they see of each other is a table of names and owners.
mod Examples
pub mod Sockets
pub mod Steps
pub mod Refines
use rust_commons.Prelude.{
  ℕ, Option, none, some, List, [], ◌∷◌, Result, ok, err, Str, str_eq, if◌then◌else◌,
}
use rust_commons.FilePath.{FilePath}
use rust_commons.Bind.{Os, BindOptions, BindError, bind}
use rust_commons.Bind.Singleton.{refusal}

-- A process starts as the daemon of that name, or the daemon of that name stops: its listener is
-- closed, by a drop or by its end.
pub data Happening : Type 0 where
  starts : (pid : ℕ) → (name : Str) → Happening
  stops : (name : Str) → Happening

-- The system, and the process and the listener of every daemon that runs.
pub record Fleet (W L : Type 0) : Type 0 where
  pub world : W
  pub running : Str → Option (ℕ × L)

abbrev pub set_at : {A : Type 0} → Str → A → (Str → A) → Str → A
set_at name a table n = if str_eq name n then a else table n

module _ {W U L E : Type 0} (os : Os W U L E) (enter : ℕ → W → W)
    (opts_of : Str → BindOptions) where
  abbrev pub after_bind :
      (pid : ℕ) (name : Str) → Result BindError L × W → Fleet W L → Result BindError L × Fleet W L
  after_bind pid name (ok l, w) f =
      (ok l, record { world = w; running = set_at name (some (pid, l)) f.running })
  after_bind pid name (err e, w) f = (err e, record f { world = w })

  abbrev pub on_starts : (pid : ℕ) (name : Str) → Fleet W L → Result BindError L × Fleet W L
  on_starts pid name f = after_bind pid name (bind os (opts_of name) (enter pid f.world)) f

  abbrev pub on_stops : (name : Str) → Option (ℕ × L) → Fleet W L → Fleet W L
  on_stops name none f = f
  on_stops name (some (pid, l)) f = record {
    world = os.close l (enter pid f.world);
    running = set_at name none f.running;
  }

  -- The answers to those who started, and the fleet behind it all.
  unfoldable pub run_fleet : List Happening → Fleet W L → List (Result BindError L) × Fleet W L
  run_fleet [] f = ([], f)
  run_fleet (starts pid name ∷ more) f =
      let (r, f₁) = on_starts pid name f in let (rs, f₂) = run_fleet more f₁ in (r ∷ rs, f₂)
  run_fleet (stops name ∷ more) f = run_fleet more (on_stops name (f.running name) f)

-- The specification: who owns each name. The first to start owns it until it stops.
abbrev pub Owners : Type 0
Owners = Str → Option ℕ

module _ (display : FilePath → Str) (opts_of : Str → BindOptions) where
  abbrev pub claim_name :
      (pid : ℕ) (name : Str) → Option ℕ → Owners → Result BindError FilePath × Owners
  claim_name pid name none owners = (ok (opts_of name).path, set_at name (some pid) owners)
  claim_name pid name (some owner) owners = (refusal display (opts_of name) owner, owners)

  unfoldable pub run_owners : List Happening → Owners → List (Result BindError FilePath) × Owners
  run_owners [] owners = ([], owners)
  run_owners (starts pid name ∷ more) owners =
      let (r, owners₁) = claim_name pid name (owners name) owners in
      let (rs, owners₂) = run_owners more owners₁ in (r ∷ rs, owners₂)
  run_owners (stops name ∷ more) owners = run_owners more (set_at name none owners)
