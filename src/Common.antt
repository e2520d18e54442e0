-- ===== src/Common.antt =====
-- What the components share: the libraries' names passed on, C's tests, arrays, words and bits.
mod Tests
mod Arrays
mod Words
mod Digits
mod Masks
mod Xor
mod Strings
mod Text
pub mod Int
pub use Tests.*
pub use Arrays.*
pub use Text.*
pub use Words.*
pub use Masks.*
pub use Xor.*
unfoldable pub use Strings.*
pub use Prim.Native.Nat.{ℕ, zero, suc, ◌+◌, ◌-◌, ◌*◌, ◌/◌, ◌%◌, ◌^◌, ◌≤◌, ◌<◌, min, max}
pub use Prim.Native.Nat.{bit_and, bit_or, bit_xor}
pub use mathlib.Core.Path.{◌≡◌, refl, sym, ap, ap₂, ◌∙◌}
pub use mathlib.Core.Logic.{◌≢◌, ◌↔◌, ◌⊎◌, inl, inr}
pub use mathlib.Core.Bool.{Bool, true, false, not, ◌&&◌, ◌||◌}
pub use mathlib.Core.Option.{Option, none, some}
pub use mathlib.Core.List.{List, [], ◌∷◌, ◌++◌, map}
pub use native.Mathlib.Omega.{arith}
