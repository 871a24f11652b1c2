-- ===== src/Prelude.antt =====
-- The names that the other modules share: numbers, paths, logic, lists, options, Boolean tests,
-- C arrays as lists, and C's unsigned words.
mod Tests
mod Lists
mod Writes
mod Words
mod Bits
mod Answers
pub mod Int
pub use Tests.*
pub use Lists.*
pub use Writes.*
pub use Words.*
unfoldable pub use Bits.*
pub use Answers.*
pub use Prim.Native.Nat.{
  ℕ, zero, suc, ◌+◌, ◌-◌, ◌*◌, ◌/◌, ◌%◌, ◌^◌, ◌≤◌, ◌<◌, bit_and, bit_or, bit_xor, min, max,
}
pub use mathlib.Core.Path.{◌≡◌, refl, sym, ap, ap₂, subst, ◌∙◌, ◌≡⟨◌⟩◌, ◌∎}
pub use mathlib.Core.Logic.{◌≢◌, ◌↔◌, ◌⊎◌, inl, inr}
pub use mathlib.Core.Bool.{Bool, true, false, not, ◌&&◌, ◌||◌}
pub use mathlib.Core.Option.{Option, none, some}
pub use mathlib.Core.List.{List, [], ◌∷◌, ◌++◌, map, append-nil, append_assoc}
pub use native.Mathlib.Omega.{arith}
