-- ===== src/Prelude.antt =====
-- The names that the other modules share: the libraries', passed on, and those of the children (Tests, Lists, Slices, Strings, Maps, Counts, Products).
-- Text is a sequence of UTF-16 code units, Dict is a JavaScript Map in insertion order.
mod Tests
mod Lists
mod Slices
mod Strings
mod Maps
mod Counts
mod Products
unfoldable pub use Tests.*
unfoldable pub use Lists.*
unfoldable pub use Slices.*
unfoldable pub use Strings.*
unfoldable pub use Maps.*
unfoldable pub use Counts.*
pub use Products.*
pub use Prim.Native.Nat.{ℕ, zero, suc, ◌+◌, ◌-◌, ◌*◌, ◌/◌, ◌%◌, ◌^◌, ◌≤◌, ◌<◌, min, max}
pub use mathlib.Core.Path.{◌≡◌, refl, sym, ap, ◌∙◌, subst}
pub use mathlib.Core.Logic.{◌≢◌, ◌↔◌, ◌⊎◌, inl, inr}
pub use mathlib.Core.Bool.{Bool, true, false, not, ◌&&◌, ◌||◌}
pub use mathlib.Core.Option.{Option, none, some}
pub use mathlib.Core.List.{List, [], ◌∷◌, ◌++◌, map, foldl, append_assoc, append-nil}
pub use native.Mathlib.Omega.{arith}
