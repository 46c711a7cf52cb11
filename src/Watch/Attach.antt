-- ===== src/Watch/Attach.antt =====
-- The attaching of watches in config/watch.rs. The file system and the notify crate are `Watcher`:
-- the calls that the code makes of them.
pub mod Pending
pub mod Settled
use rust_commons.Prelude.{
  ℕ, Bool, true, false, not, ◌&&◌, Option, none, some, List, [], ◌∷◌, Result, ok, err,
  if◌then◌else◌, codes,
}
use rust_commons.StdIo.{ErrorKind}
use rust_commons.FilePath.{FilePath, parent}
use rust_commons.Watch.{WatchSpec}

-- `Path::is_dir`, `create_dir_all` and `RecommendedWatcher::watch`, over the state `W`
pub record Watcher (W E : Type 0) : Type 0 where
  pub is_dir : FilePath → W → Bool
  pub create_dir_all : FilePath → W → Result ErrorKind (Unit {0}) × W
  pub watch : FilePath → (recursive : Bool) → W → Result E (Unit {0}) × W

abbrev pub or_here : Option FilePath → FilePath
or_here (some p) = p
or_here none = codes "."

abbrev pub is_ok : {E : Type 0} → Result E (Unit {0}) → Bool
is_ok (ok _) = true
is_ok (err e) = false

module _ {W E : Type 0} (watcher : Watcher W E) where
  unfoldable pub watch_dir_for : FilePath → W → FilePath
  watch_dir_for path w = if watcher.is_dir path w then path else or_here (parent path)

  abbrev pub target_of : WatchSpec → W → FilePath
  target_of spec w = if spec.recursive then spec.path else watch_dir_for spec.path w

  -- The directory of a spec for a file is created if it is not there; an error of that is ignored.
  abbrev pub prepare : WatchSpec → FilePath → W → W
  prepare spec target w =
      if not spec.recursive && not (watcher.is_dir target w)
      then (watcher.create_dir_all target w).1
      else w

  abbrev pub watch_target : WatchSpec → FilePath → W → Bool × W
  watch_target spec target w =
      if watcher.is_dir target w
      then (let (r, w') = watcher.watch target spec.recursive w in (is_ok r, w'))
      else (false, w)

  unfoldable pub attach_spec : WatchSpec → W → Bool × W
  attach_spec spec w =
      let target = target_of spec w in watch_target spec target (prepare spec target w)

  -- What is left of a round of `attach_pending` after one spec.
  pub record Round : Type 0 where
    pub newly : Bool
    pub attached : List Bool
    pub world : W

  abbrev pub keep_flag : Bool → Round → Round
  keep_flag flag r = record r { attached = flag ∷ r.attached }

  abbrev pub set_flag : Bool → Round → Round
  set_flag done r = record r {
    newly = if done then true else r.newly;
    attached = done ∷ r.attached;
  }

  -- The flags stand beside the specs; a spec without one would panic in the code, and the flags
  -- are made as many as the specs.
  unfoldable pub attach_pending : List WatchSpec → List Bool → W → Round
  attach_pending (spec ∷ specs) (true ∷ flags) w = keep_flag true (attach_pending specs flags w)
  attach_pending (spec ∷ specs) (false ∷ flags) w =
      let (done, w') = attach_spec spec w in set_flag done (attach_pending specs flags w')
  attach_pending specs flags w = record { newly = false; attached = flags; world = w }
