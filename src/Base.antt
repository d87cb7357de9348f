-- ===== src/Base.antt =====
-- What every module of the library shares: the libraries' names, the Boolean tests and the
-- conditional (Base/Tests), lists measured and indexed by native numbers (Base/Lists), the
-- integers that stand for the C type `int` (Base/Int), bit operations (Base/Bits), texts (Base/Text),
-- numbers in them (Base/Strtol, Base/Decimals), files that are read line by line (Base/Streams,
-- Base/Lines).
mod Tests
mod Lists
pub mod Int
pub mod Bits
pub mod Text
pub mod Strtol
pub mod Decimals
pub mod Streams
pub mod Lines
pub use Tests.*
pub use Lists.*
pub use Prim.Native.Nat.{ℕ, zero, suc, ◌+◌, ◌-◌, ◌*◌, ◌/◌, ◌%◌, ◌^◌, ◌≤◌, ◌<◌}
pub use mathlib.Core.Path.{◌≡◌, refl, sym, ap, ◌∙◌}
pub use mathlib.Core.Logic.{◌≢◌, ◌↔◌, ◌⊎◌, inl, inr}
pub use mathlib.Core.Bool.{Bool, true, false, not, ◌&&◌, ◌||◌}
pub use mathlib.Core.Option.{Option, none, some}
pub use mathlib.Core.List.{List, [], ◌∷◌, ◌++◌, map}
pub use native.Mathlib.Omega.{arith}
