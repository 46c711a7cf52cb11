-- ===== src/Fleet/Refines.antt =====
-- The daemons of one data root keep to the table of owners, on a Unix system that refuses them no
-- call.
use rust_commons.Prelude.{List, [], ◌∷◌, Result}
use rust_commons.FilePath.{FilePath}
use rust_commons.DataDir.{DataDir}
use rust_commons.Bind.{BindError}
use rust_commons.Bind.Singleton.{answer}
use rust_commons.Fleet.{Happening, starts, stops, Fleet}
use rust_commons.Fleet.Sockets.{IsDaemonName}

abbrev pub answers_seen :
    {L : Type 0} → (L → FilePath) → List (Result BindError L) → List (Result BindError FilePath)
answers_seen place [] = []
answers_seen place (r ∷ rs) = answer place r ∷ answers_seen place rs

abbrev pub AllNamed : List Happening → Type 0
AllNamed [] = Unit
AllNamed (starts pid name ∷ more) = IsDaemonName name × AllNamed more
AllNamed (stops name ∷ more) = IsDaemonName name × AllNamed more
