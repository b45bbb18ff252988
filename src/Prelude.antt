-- ===== src/Prelude.antt =====
-- The names that every module shares: the libraries', passed on, with Boolean tests, lists over
-- the native numbers, byte strings, the float values the program compares, and result values.
mod Tests
mod Lists
mod Bytes
mod Floats
mod Sort
pub use Tests.*
pub use Lists.*
pub use Floats.*
unfoldable pub use Sort.*
unfoldable pub use Bytes.*
pub use Prim.Native.Nat.{ℕ, zero, suc, ◌+◌, ◌-◌, ◌*◌, ◌/◌, ◌%◌, ◌≤◌, ◌<◌}
pub use mathlib.Core.Path.{◌≡◌, refl, sym, ap, ◌∙◌}
pub use mathlib.Core.Logic.{◌≢◌, ◌↔◌, ◌⊎◌, inl, inr}
pub use mathlib.Core.Bool.{Bool, true, false, ◌&&◌, ◌||◌, not}
pub use mathlib.Core.Option.{Option, none, some}
pub use mathlib.Core.List.{List, [], ◌∷◌, ◌++◌, map, reverse}
pub use native.Mathlib.Omega.{arith}
