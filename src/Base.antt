-- ===== src/Base.antt =====
-- What the other modules share: the library names in use, Boolean tests, lists measured by native
-- numbers, byte strings and results that may be errors. `Int` and `Table` are used by name.
mod Tests
mod Lists
mod Strings
mod Outcome
pub mod Int
pub mod Table
pub use Tests.*
pub use Lists.*
unfoldable pub use Strings.*
pub use Outcome.*
pub use Prim.Native.Nat.{ℕ, zero, suc, ◌+◌, ◌-◌, ◌*◌, ◌/◌, ◌%◌, ◌^◌, ◌≤◌, ◌<◌}
pub use Prim.Native.String.{String}
pub use mathlib.Core.Path.{◌≡◌, refl, sym, ap, ◌∙◌, subst}
pub use mathlib.Core.Logic.{◌≢◌, ◌↔◌, ◌⊎◌, inl, inr}
pub use mathlib.Core.Bool.{Bool, true, false, not, ◌&&◌, ◌||◌}
pub use mathlib.Core.Option.{Option, none, some}
pub use mathlib.Core.List.{List, [], ◌∷◌, ◌++◌, map, append_assoc, append-nil}
pub use native.Mathlib.Omega.{arith}
