-- ===== src/Prelude.antt =====
-- The names that the other modules share: the libraries', passed on, and those of the children
-- (tests and conditionals, maps with unique keys, JavaScript values, state with exceptions).
mod Tests
mod Keys
mod Maps
pub mod Decimal
mod Lists
mod Values
mod Stringify
pub mod Percent
mod Text
mod Methods
unfoldable pub use Tests.*
unfoldable pub use Keys.*
unfoldable pub use Maps.*
unfoldable pub use Decimal.*
unfoldable pub use Lists.*
unfoldable pub use Text.*
unfoldable pub use Stringify.*
unfoldable pub use Percent.*
unfoldable pub use Values.*
unfoldable pub use Methods.*
pub use Prim.Native.Nat.{ℕ, zero, suc, ◌+◌, ◌-◌, ◌*◌, ◌/◌, ◌%◌, ◌^◌, ◌≤◌, ◌<◌}
pub use Prim.Native.String.{String}
pub use mathlib.Core.Path.{◌≡◌, refl, sym, ap, ◌∙◌}
pub use mathlib.Core.Logic.{◌≢◌, ◌↔◌, ◌⊎◌, inl, inr}
pub use mathlib.Core.Bool.{Bool, true, false, not, ◌&&◌, ◌||◌}
pub use mathlib.Core.Option.{Option, none, some}
pub use mathlib.Core.List.{List, [], ◌∷◌, ◌++◌, map}
pub use native.Mathlib.Omega.{arith}
pub use text.Mathlib.TextEquality.{eq_iff}
