-- ===== src/Config/UnitTests.antt =====
-- The unit test of config/mod.rs, with its two sources.
use rust_commons.Prelude.{
  ℕ, ◌≡◌, refl, Bool, true, false, ◌&&◌, not, ◌==◌, Result, ok, err, codes, if◌then◌else◌,
}
use rust_commons.Config.{ConfigError, other, Load, new, replace, snapshot, try_reload}

module _ (J : Type 0) where
  -- Neither source looks at more of the system than the flag of `Once`, an `AtomicBool`.
  abbrev boom : Load Bool J ℕ
  boom = record { load = λ flag. (err (other (codes "nope")), flag) }

  abbrev once : Load Bool J ℕ
  once = record { load = λ flag. (if flag then err (other (codes "second")) else ok 7, true) }

  abbrev is_err : Result (ConfigError J) (Unit {0}) → Bool
  is_err (ok _) = false
  is_err (err _) = true

  abbrev failed_reload_keeps_previous : Bool
  failed_reload_keeps_previous =
      let (r₁, s₁) = try_reload boom (record { world = false; live = new 1 }) in
      let (r₂, s₂) = try_reload once s₁ in
      let (r₃, s₃) = try_reload once s₂ in
      is_err r₁
      && (snapshot s₁.live == 1
          && (not (is_err r₂) && (snapshot s₂.live == 7 && (is_err r₃ && snapshot s₃.live == 7))))

  failed_reload_passes : failed_reload_keeps_previous ≡ true
  unfolding try_reload replace snapshot
  failed_reload_passes = refl
