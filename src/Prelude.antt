-- ===== src/Prelude.antt =====
-- The names that the other modules share: the libraries', passed on, with tests on native
-- numbers, lists measured by native numbers, and dictionaries keyed by numbers.
mod Tests
mod Lists
mod Words
mod Everywhere
mod Results
pub mod Dict
pub use Tests.*
pub use Lists.*
pub use Words.*
pub use Everywhere.*
pub use Results.*
pub use Prim.Native.Nat.{
  ℕ, zero, suc, ◌+◌, ◌-◌, ◌*◌, ◌/◌, ◌%◌, ◌^◌, ◌≤◌, ◌<◌, min, max, bit_and, bit_or, bit_xor,
}
pub use mathlib.Core.Path.{◌≡◌, refl, sym, ap, ap₂, subst, ◌∙◌}
pub use mathlib.Core.Logic.{◌≢◌, ◌↔◌, ◌⊎◌, inl, inr}
pub use mathlib.Core.Bool.{Bool, true, false, not, ◌&&◌, ◌||◌}
pub use mathlib.Core.Option.{Option, none, some}
pub use mathlib.Core.List.{List, [], ◌∷◌, ◌++◌, map, reverse}
pub use native.Mathlib.Omega.{arith}
