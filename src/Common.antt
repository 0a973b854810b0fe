-- ===== src/Common.antt =====
-- The names that every part shares: the libraries', passed on, and those of three children.
mod Tests
mod Lists
mod Maps
mod Ints
pub use Tests.*
pub use Lists.*
unfoldable pub use Tests.{inc64}
unfoldable pub use Maps.{find, contains, erase, assign, emplace, erase_if}
pub use Maps.*
unfoldable pub use Ints.{◌*ℤ◌, to_size}
pub use Ints.*
pub use Prim.Native.Nat.{ℕ, zero, suc, ◌+◌, ◌-◌, ◌*◌, ◌/◌, ◌%◌, ◌^◌, ◌≤◌, ◌<◌, min, max}
pub use Prim.Native.String.{String}
pub use mathlib.Core.Path.{◌≡◌, refl, sym, ap, ap₂, subst, ◌∙◌}
pub use mathlib.Core.Logic.{◌≢◌, ◌↔◌, ◌⊎◌, inl, inr}
pub use mathlib.Core.Bool.{Bool, true, false, not, ◌&&◌, ◌||◌}
pub use mathlib.Core.Option.{Option, none, some}
pub use mathlib.Core.List.{List, [], ◌∷◌, ◌++◌, map}
pub use native.Mathlib.Omega.{arith}
