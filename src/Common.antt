-- ===== src/Common.antt =====
-- Names that the other modules share: the libraries', passed on, and those of the children:
-- Boolean tests and unsigned arithmetic, arrays, counted loops, rearrangements of an array.
mod Tests
mod Arrays
mod Lists
mod Loops
pub mod Int
pub mod Pigeonhole
pub mod Rearrange
pub mod Bits
pub use Tests.*
pub use Arrays.*
pub use Lists.*
unfoldable pub use Loops.{for_up, for_down}
pub use Loops.{for_up_inv, for_down_inv, for_up_count}
pub use Prim.Native.Nat.{ℕ, zero, suc, ◌+◌, ◌-◌, ◌*◌, ◌/◌, ◌%◌, ◌^◌, ◌≤◌, ◌<◌}
pub use mathlib.Core.Path.{◌≡◌, refl, sym, ap, ◌∙◌}
pub use mathlib.Core.Logic.{◌≢◌, ◌↔◌, ◌⊎◌, inl, inr}
pub use mathlib.Core.Bool.{Bool, true, false, ◌&&◌, ◌||◌, not}
pub use mathlib.Core.Option.{Option, none, some, get_or}
pub use mathlib.Core.List.{List, [], ◌∷◌, ◌++◌, map}
pub use native.Mathlib.Omega.{arith}
unfoldable pub use native.Mathlib.Decide.{dec_lt, ℕ_discrete}
