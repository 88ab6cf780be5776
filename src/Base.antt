-- ===== src/Base.antt =====
-- The names that the modules share: the libraries', passed on, and those of the children below:
-- Boolean tests, lists over the native numbers, texts as lists of code points, integers, maps.
mod Tests
mod Lists
mod Filters
mod Searches
mod Texts
mod Int
mod Assoc
pub use Tests.*
pub use Lists.*
pub use Filters.*
pub use Searches.*
unfoldable pub use Texts.*
pub use Int.*
unfoldable pub use Assoc.*
pub use Prim.Native.Nat.{ℕ, zero, suc, ◌+◌, ◌-◌, ◌*◌, ◌/◌, ◌%◌, ◌^◌, ◌≤◌, ◌<◌, min, max}
pub use mathlib.Core.Path.{◌≡◌, refl, sym, ap, subst, ◌∙◌}
pub use mathlib.Core.Logic.{◌≢◌, ◌↔◌, ◌⊎◌, inl, inr}
pub use mathlib.Core.Bool.{Bool, true, false, not, ◌&&◌, ◌||◌}
pub use mathlib.Core.Option.{Option, none, some}
pub use mathlib.Core.List.{List, [], ◌∷◌, ◌++◌, map}
pub use native.Mathlib.Omega.{arith}
