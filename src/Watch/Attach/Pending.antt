-- ===== src/Watch/Attach/Pending.antt =====
-- `attach_pending` of config/watch.rs: every spec that is not attached is tried, whatever becomes
-- of the others, and a watch that is attached stays so.
use rust_commons.Prelude.{
  ℕ, suc, ◌<◌, ◌≤◌, ◌≡◌, ◌↔◌, Bool, true, false, List, [], ◌∷◌, arith, length,
}
use rust_commons.Watch.{WatchSpec}
use rust_commons.Watch.Attach.{Watcher, attach_spec, attach_pending}

module _ {W E : Type 0} (watcher : Watcher W E) where
  -- One round over the specs: `Tries specs flags w flags' w'`.
  pub data Tries : List WatchSpec → List Bool → W → List Bool → W → Type 0 where
    done : {w : W} → Tries [] [] w [] w
    skip :
        {spec : WatchSpec} {specs : List WatchSpec} {flags flags' : List Bool} {w w' : W}
        → Tries specs flags w flags' w'
        → Tries (spec ∷ specs) (true ∷ flags) w (true ∷ flags') w'
    attempt :
        {spec : WatchSpec} {specs : List WatchSpec} {flags flags' : List Bool} {w w' : W}
        → Tries specs flags (attach_spec watcher spec w).1 flags' w'
        → Tries (spec ∷ specs) (false ∷ flags) w ((attach_spec watcher spec w).0 ∷ flags') w'

  -- A round tries each spec that is not attached once, in order, in the state that the one before
  -- it left, and sets its flag if that succeeds; a failure stops nothing. The attached ones are
  -- passed over.
  pub attach_pending-Tries :
      (specs : List WatchSpec) (flags : List Bool) (w : W)
      → length flags ≡ length specs
      → Tries specs flags w
          (attach_pending watcher specs flags w).attached
          (attach_pending watcher specs flags w).world
  unfolding attach_pending
  attach_pending-Tries [] [] w h = done
  attach_pending-Tries [] (f ∷ flags) w h = absurd (omega arith)
  attach_pending-Tries (s ∷ specs) [] w h = absurd (omega arith)
  attach_pending-Tries (s ∷ specs) (true ∷ flags) w h =
      skip (attach_pending-Tries specs flags w (omega arith))
  attach_pending-Tries (s ∷ specs) (false ∷ flags) w h =
      attempt (attach_pending-Tries specs flags (attach_spec watcher s w).1 (omega arith))

abbrev pub count_true : List Bool → ℕ
count_true [] = 0
count_true (true ∷ fs) = suc (count_true fs)
count_true (false ∷ fs) = count_true fs

module _ {W E : Type 0} (watcher : Watcher W E) where
  -- A round reports news exactly if it has attached a watch that was not: the number of attached
  -- watches never falls, and grows exactly then.
  pub attach_pending-count :
      (specs : List WatchSpec) (flags : List Bool) (w : W)
      → (count_true flags ≤ count_true (attach_pending watcher specs flags w).attached)
        × (((attach_pending watcher specs flags w).newly ≡ true)
            ↔ (count_true flags < count_true (attach_pending watcher specs flags w).attached))
        × (length (attach_pending watcher specs flags w).attached ≡ length flags)
  unfolding attach_pending
  attach_pending-count [] [] w = ground arith
  attach_pending-count [] (f ∷ flags) w = ground arith
  attach_pending-count (s ∷ specs) [] w = ground arith
  attach_pending-count (s ∷ specs) (true ∷ flags) w =
      let (a, b, c) = attach_pending-count specs flags w in ground arith
  attach_pending-count (s ∷ specs) (false ∷ flags) w =
      let (a, b, c) = attach_pending-count specs flags (attach_spec watcher s w).1 in ground arith
