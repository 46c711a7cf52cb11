-- ===== src/Fleet/Examples.antt =====
-- Two daemons under `/data` on the system of Bind/World: one is started twice, stops, and is started
-- again by another process.
use rust_commons.Prelude.{◌≡◌, refl, none, List, [], ◌∷◌, ok, Str, codes, str_eq}
use rust_commons.DataDir.{DataDir, from_path, run_socket}
use rust_commons.Bind.{BindOptions}
use rust_commons.Bind.World.{World, kernel}
use rust_commons.Bind.Singleton.{refusal}
use rust_commons.Fleet.{Happening, starts, stops, run_owners}

abbrev data_root : DataDir
data_root = from_path (codes "/data")

abbrev daemon_opts : Str → BindOptions
daemon_opts name = record {
  path = run_socket data_root name;
  mode = 0o600;
  chown = none;
  process_name = name;
}

abbrev nothing_there : World
nothing_there = record { entries = λ p. none; pid = 1 }

abbrev dns : Str
dns = codes "dns"

abbrev waf : Str
waf = codes "waf"

abbrev morning : List Happening
morning = starts 10 dns ∷ starts 11 waf ∷ starts 12 dns ∷ stops dns ∷ starts 13 dns ∷ []

-- The table itself: the third start is refused, the last one is not.
table_run :
    (run_owners kernel.display daemon_opts morning (λ n. none)).0
    ≡ ok (run_socket data_root dns)
      ∷ ok (run_socket data_root waf)
      ∷ refusal kernel.display (daemon_opts dns) 10
      ∷ ok (run_socket data_root dns)
      ∷ []
unfolding run_owners str_eq
table_run = refl
