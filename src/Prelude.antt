-- ===== src/Prelude.antt =====
-- The names that every module shares: the libraries', passed on, Boolean tests and lists over the
-- native numbers, machine words of the target (`size_t`, `uintptr_t` and `uint64_t` are 64 bits),
-- and the bit operations as arithmetic.
mod Tests
mod Lists
mod Order
pub mod Flow
pub mod Bits
pub mod Word
pub mod Slices
pub mod Int
pub mod Act
pub mod Branches
pub mod Capped
pub mod LittleEndian
pub use Tests.*
pub use Lists.*
unfoldable pub use Order.{lt_wf}
pub use Prim.Native.Nat.{ℕ, zero, suc, ◌+◌, ◌-◌, ◌*◌, ◌/◌, ◌%◌, ◌^◌, ◌≤◌, ◌<◌, min, max}
pub use Prim.Native.Nat.{bit_and, bit_or}
pub use mathlib.Core.Path.{◌≡◌, refl, sym, ap, ◌∙◌}
pub use mathlib.Core.Logic.{◌≢◌, ◌↔◌, ◌⊎◌, inl, inr}
pub use mathlib.Core.Bool.{Bool, true, false, not, ◌&&◌, ◌||◌}
pub use mathlib.Core.Option.{Option, none, some}
pub use mathlib.Core.List.{List, [], ◌∷◌, ◌++◌, map}
pub use native.Mathlib.Omega.{arith}
