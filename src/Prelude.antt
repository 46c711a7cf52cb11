-- ===== src/Prelude.antt =====
-- The names that every component shares: the libraries' ones passed on, Boolean tests, lists over
-- the native numbers, results with a threaded state, and text as bytes.
mod Tests
mod Lists
mod Fallible
mod Bytes
mod Order
pub mod Decimal
pub use Tests.*
pub use Lists.*
pub use Fallible.*
pub use Bytes.*
pub use mathlib.Core.Logic.{dite, ite, if_pos, if_neg, dif_pos, dif_neg}
pub use native.Mathlib.Bridge.{le_prop}
unfoldable pub use Order.{lt_wf}
unfoldable pub use Bytes.{str_eq, starts_with, ends_with}
pub use Prim.Native.Nat.{ℕ, zero, suc, ◌+◌, ◌-◌, ◌*◌, ◌/◌, ◌%◌, ◌^◌, ◌≤◌, ◌<◌, min}
pub use mathlib.Core.Path.{◌≡◌, refl, sym, ap, ◌∙◌, subst}
pub use mathlib.Core.Logic.{◌≢◌, ◌↔◌, ◌⊎◌, inl, inr}
pub use mathlib.Core.Bool.{Bool, true, false, not, ◌&&◌, ◌||◌}
pub use mathlib.Core.Option.{Option, none, some}
pub use mathlib.Core.List.{List, [], ◌∷◌, ◌++◌, append-nil, append_assoc, Permᴰ}
pub use native.Mathlib.Omega.{arith}
unfoldable pub use native.Mathlib.Decide.{dec_lt, ℕ_discrete}
