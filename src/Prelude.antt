-- ===== src/Prelude.antt =====
-- Names that the whole development shares: the libraries' names passed on, and the helpers of the
-- children: Boolean tests on machine words, lists indexed by native numbers, results, hash maps.
mod Tests
mod Lists
pub mod Results
pub mod Eq
pub mod HashMap
pub mod Forall
pub mod Bits
pub mod Masks
pub mod Ints
pub mod Digits
pub use Tests.*
pub use Lists.*
pub use Prim.Native.Nat.{ℕ, zero, suc, ◌+◌, ◌-◌, ◌*◌, ◌/◌, ◌%◌, ◌^◌, ◌≤◌, ◌<◌, min, max}
pub use mathlib.Core.Path.{◌≡◌, refl, sym, ap, ◌∙◌}
pub use mathlib.Core.Logic.{◌≢◌, ◌↔◌, ◌⊎◌, inl, inr}
pub use mathlib.Core.Bool.{Bool, true, false, not, ◌&&◌, ◌||◌}
pub use mathlib.Core.Option.{Option, none, some}
pub use mathlib.Core.List.{List, [], ◌∷◌, ◌++◌, map}
pub use native.Mathlib.Omega.{arith}
