-- ===== src/Base.antt =====
-- The names that the other modules share: the libraries', and those of the children.
mod Tests
mod Lists
mod Slices
mod Size
mod Faults
mod Bytes
pub mod Int
pub mod OrderedSet
unfoldable pub use Tests.*
pub use Lists.*
pub use Slices.*
pub use Size.*
pub use Faults.*
unfoldable pub use Bytes.*
pub use Prim.Native.Nat.{ℕ, zero, suc, ◌+◌, ◌-◌, ◌*◌, ◌/◌, ◌%◌, ◌^◌, ◌≤◌, ◌<◌, min}
pub use mathlib.Core.Path.{◌≡◌, refl, sym, ap, ap₂, ◌∙◌}
pub use mathlib.Core.Logic.{◌≢◌, ◌↔◌, ◌⊎◌, inl, inr}
pub use mathlib.Core.Bool.{Bool, true, false, not, ◌&&◌, ◌||◌}
pub use mathlib.Core.Option.{Option, none, some}
pub use mathlib.Core.List.{List, [], ◌∷◌, ◌++◌, map, reverse}
pub use native.Mathlib.Omega.{arith}
