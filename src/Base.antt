-- ===== src/Base.antt =====
-- The names that the other modules share: the libraries', passed on, and those of the children.
mod Tests
pub mod Attempts
mod Equality
mod Lists
mod Subsets
mod Errors
pub mod Sort
pub mod Counts
pub mod Decimal
pub mod Codes
pub mod Float
pub mod Json
pub mod Scalars
pub mod Dict
pub mod Additions
pub mod DictOfSets
pub mod Grouping
pub mod Comprehensions
pub use Tests.*
unfoldable pub use Equality.*
pub use Errors.*
unfoldable pub use Lists.*
unfoldable pub use Subsets.*
pub use Prim.Native.Nat.{ℕ, zero, suc, ◌+◌, ◌-◌, ◌*◌, ◌/◌, ◌%◌, ◌^◌, ◌≤◌, ◌<◌}
pub use Prim.Native.String.{String, ◌++◌ as ◌<>◌}
pub use mathlib.Core.Path.{◌≡◌, refl, sym, ap, subst, ◌∙◌}
pub use mathlib.Core.Logic.{◌≢◌, ◌↔◌, ◌⊎◌, inl, inr}
pub use mathlib.Core.Bool.{Bool, true, false, ◌&&◌, ◌||◌, not}
pub use mathlib.Core.Option.{Option, none, some, some-injective}
pub use mathlib.Core.List.{List, [], ◌∷◌, ◌++◌, map, foldl, foldr}
pub use native.Mathlib.Omega.{arith}
