-- ===== src/Config.antt =====
-- config/mod.rs: the live snapshot of a configuration, and its reload.
mod Examples
mod UnitTests
pub mod Reload
pub mod Shared
pub mod JsonFile
pub mod Display
pub mod Sighup
use rust_commons.Prelude.{
  ℕ, Bool, true, false, List, [], ◌∷◌, Result, ok, err, Io, Str, if◌then◌else◌,
}
use rust_commons.StdIo.{ErrorKind}

-- `J` is serde_json's error type.
pub data ConfigError (J : Type 0) : Type 0 where
  io_at : (path : Str) → ErrorKind → ConfigError J
  json : J → ConfigError J
  other : Str → ConfigError J

-- An `RwLock` with its poison flag; the flag stays when the content is replaced.
pub record Live {ℓ} (T : Type ℓ) : Type ℓ where
  pub inner : T
  pub poisoned : Bool

-- What `write()` and `read()` give: a guard, or an error that holds one.
pub data LockResult {ℓ} (T : Type ℓ) : Type ℓ where
  guard : T → LockResult T
  poison : T → LockResult T

module _ {ℓ} {T : Type ℓ} where
  -- `Live::new`
  abbrev pub new : T → Live T
  new value = record { inner = value; poisoned = false }

  abbrev pub lock : Live T → LockResult T
  lock live = if live.poisoned then poison live.inner else guard live.inner

  abbrev pub assign : T → LockResult T → Live T → Live T
  assign next (guard _) live = record live { inner = next }
  assign next (poison _) live = record live { inner = next }

  unfoldable pub replace : T → Live T → Live T
  replace next live = assign next (lock live) live

  abbrev pub content : LockResult T → T
  content (guard value) = value
  content (poison value) = value

  -- `Live::with`; the name is a method of its own in `snapshot`
  unfoldable pub with_value : {R : Type ℓ} → (T → R) → Live T → R
  with_value f live = f (content (lock live))

  unfoldable pub snapshot : Live T → T
  unfolding with_value
  snapshot live = with_value (λ v. v) live

-- The trait `Load`: a source that reads the system `W`.
pub record Load (W J T : Type 0) : Type 0 where
  pub load : Io W (ConfigError J) T

pub record Reloading (W T : Type 0) : Type 0 where
  pub world : W
  pub live : Live T

module _ {W J T : Type 0} (source : Load W J T) where
  abbrev pub swap_in :
      Live T → Result (ConfigError J) T × W → Result (ConfigError J) (Unit {0}) × Reloading W T
  swap_in live (ok next, w) = (ok tt, record { world = w; live = replace next live })
  swap_in live (err e, w) = (err e, record { world = w; live = live })

  unfoldable pub try_reload : Io (Reloading W T) (ConfigError J) (Unit {0})
  try_reload s = swap_in s.live (source.load s.world)
