-- ===== src/Config/Reload.antt =====
-- Reloads of config/mod.rs: a failed load never touches the live snapshot.
use rust_commons.Prelude.{ℕ, zero, suc, ◌≡◌, refl, ◌∙◌, Result, ok, err, arith}
use rust_commons.Config.{ConfigError, Live, replace, snapshot, Load, Reloading, swap_in, try_reload}

module _ {W J T : Type 0} (source : Load W J T) where
  -- The snapshot behind one reload: the loaded value, or the old one.
  abbrev pub value_after : T → Result (ConfigError J) T → T
  value_after old (ok next) = next
  value_after old (err e) = old

  -- `n` reloads, whether they fail or not, and the value that they should leave.
  unfoldable pub reloads : ℕ → Reloading W T → Reloading W T
  reloads zero s = s
  reloads (suc n) s = reloads n (try_reload source s).1

  unfoldable pub last_loaded : ℕ → T → W → T
  last_loaded zero old w = old
  last_loaded (suc n) old w = let (r, w') = source.load w in last_loaded n (value_after old r) w'

  pub swap_in-snapshot :
      (live : Live T) (x : Result (ConfigError J) T × W)
      → (snapshot (swap_in source live x).1.live ≡ value_after (snapshot live) x.0)
        × ((swap_in source live x).1.world ≡ x.1)
        × ((swap_in source live x).1.live.poisoned ≡ live.poisoned)
  unfolding replace snapshot
  swap_in-snapshot live (ok next, w) = ground arith
  swap_in-snapshot live (err e, w) = (refl, refl, refl)

  -- After any number of reloads the snapshot is the value of the last load that succeeded, and the
  -- first value if none did; a poisoned lock makes no difference.
  pub snapshot-reloads :
      (n : ℕ) (s : Reloading W T)
      → snapshot (reloads n s).live ≡ last_loaded n (snapshot s.live) s.world
  unfolding reloads last_loaded try_reload
  snapshot-reloads zero s = refl
  snapshot-reloads (suc n) s =
      let (p, q, r) = swap_in-snapshot s.live (source.load s.world) in
      snapshot-reloads n (try_reload source s).1 ∙ rw (p, q)

  -- A reload that reports an error has left the live value as it was, lock and all.
  pub try_reload_err :
      (s s' : Reloading W T) (e : ConfigError J)
      → try_reload source s ≡ (err e, s')
      → s'.live ≡ s.live
  unfolding try_reload
  try_reload_err s s' e h = ground arith
