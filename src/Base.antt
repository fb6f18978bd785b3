-- ===== src/Base.antt =====
-- The names that the other modules share: the libraries', passed on, and those of the children.
mod Equality
mod Tests
mod Lists
pub mod Indexed
pub mod Sorting
mod Keys
mod Text
mod Stringify
mod Integers
pub use Equality.*
pub use Tests.*
pub use Lists.*
unfoldable pub use Keys.*
unfoldable pub use Text.*
unfoldable pub use Stringify.{stringify, stringify_object}
pub use Integers.{ℤ, pos, negsuc}
unfoldable pub use Integers.{or_else, is_between}
unfoldable pub use Indexed.{remove_at, modify_at}
pub use Prim.Native.Nat.{ℕ, zero, suc, ◌+◌, ◌-◌, ◌*◌, ◌/◌, ◌%◌, ◌≤◌, ◌<◌, max, min}
pub use Prim.Native.String.{String}
pub use mathlib.Core.Path.{◌≡◌, refl, sym, ap, ◌∙◌, subst}
pub use mathlib.Core.Logic.{◌≢◌, ◌↔◌, ◌⊎◌, inl, inr}
pub use mathlib.Core.Bool.{Bool, true, false, not, ◌&&◌, ◌||◌}
pub use mathlib.Core.Option.{Option, none, some}
pub use mathlib.Core.List.{List, [], ◌∷◌, ◌++◌, map, append_assoc, append-nil}
pub use native.Mathlib.Omega.{arith}
