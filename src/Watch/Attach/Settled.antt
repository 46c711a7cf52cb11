-- ===== src/Watch/Attach/Settled.antt =====
-- Rounds of `attach_pending` of config/watch.rs in which nothing is attached: every spec has its
-- watch already, or fails again.
use rust_commons.Prelude.{◌≡◌, refl, ap, ◌∙◌, Bool, true, false, List, [], ◌∷◌}
use rust_commons.Watch.{WatchSpec}
use rust_commons.Watch.Attach.{Watcher, attach_spec, attach_pending, keep_flag, set_flag}

-- Every spec has its watch.
pub data AllAttached : List Bool → Type 0 where
  nothing : AllAttached []
  also : {flags : List Bool} → AllAttached flags → AllAttached (true ∷ flags)

module _ {W E : Type 0} (watcher : Watcher W E) where
  -- Then a round of attaching does nothing.
  pub attach_pending-AllAttached :
      (specs : List WatchSpec) (flags : List Bool) (w : W)
      → AllAttached flags
      → attach_pending watcher specs flags w ≡ record { newly = false; attached = flags; world = w }
  unfolding attach_pending
  attach_pending-AllAttached [] flags w nothing = refl
  attach_pending-AllAttached [] flags w (also all) = refl
  attach_pending-AllAttached (s ∷ specs) flags w nothing = refl
  attach_pending-AllAttached (s ∷ specs) (true ∷ flags) w (also all) =
      rw (attach_pending-AllAttached specs flags w all)

module _ {W E : Type 0} (watcher : Watcher W E) (holds : W → Type 0) where
  -- Each spec has its watch, or cannot be attached while `holds` is true of the system, which the
  -- attempt leaves true.
  pub data Settled : List WatchSpec → List Bool → Type 0 where
    no_specs : Settled [] []
    attached :
        {spec : WatchSpec} {specs : List WatchSpec} {flags : List Bool}
        → Settled specs flags
        → Settled (spec ∷ specs) (true ∷ flags)
    failing :
        {spec : WatchSpec} {specs : List WatchSpec} {flags : List Bool}
        → ((w : W)
            → holds w
            → ((attach_spec watcher spec w).0 ≡ false) × holds (attach_spec watcher spec w).1)
        → Settled specs flags
        → Settled (spec ∷ specs) (false ∷ flags)

  -- A round of attaching attaches nothing, and another one may follow.
  abbrev pub IsCalm : List WatchSpec → List Bool → Type 0
  IsCalm specs flags =
      (w : W)
      → holds w
      → (w' : W) × (attach_pending watcher specs flags w
          ≡ record { newly = false; attached = flags; world = w' })
        × holds w'

  pub Settled-IsCalm :
      {specs : List WatchSpec} {flags : List Bool} → Settled specs flags → IsCalm specs flags
  unfolding attach_pending
  Settled-IsCalm no_specs w h = (w, refl, h)
  Settled-IsCalm (attached more) w h =
      let (w', e, h') = Settled-IsCalm more w h in (w', ap (λ r. keep_flag watcher true r) e, h')
  Settled-IsCalm (failing {spec = spec} {specs = specs} {flags = flags} fails more) w h =
      let (f, h₁) = fails w h in
      let (w', e, h₂) = Settled-IsCalm more (attach_spec watcher spec w).1 h₁ in
      (
        w',
        ap
              (λ done.
                set_flag watcher done
                  (attach_pending watcher specs flags (attach_spec watcher spec w).1))
              f
            ∙ ap (λ r. set_flag watcher false r) e,
        h₂,
      )

module _ {W E : Type 0} (watcher : Watcher W E) where
  pub AllAttached-IsCalm :
      (specs : List WatchSpec) (flags : List Bool)
      → AllAttached flags
      → IsCalm watcher (λ w. Unit {0}) specs flags
  AllAttached-IsCalm specs flags all w h =
      (w, attach_pending-AllAttached watcher specs flags w all, tt)
