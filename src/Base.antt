-- ===== src/Base.antt =====
-- The names that the other modules share: the libraries', passed on, and those of the children.
-- `Words` is the 32-bit `int` of the C sources, `Arrays` their arrays and counted loops, `Lists`
-- sums over lists, `Options` chains of steps that may fail, `Tables` checks by evaluation, and
-- `System` what the programs take from the operating system.
mod Tests
mod Arrays
mod Lists
mod Options
mod Words
mod Tables
mod System
unfoldable pub use Tests.*
unfoldable pub use Arrays.*
unfoldable pub use Lists.*
unfoldable pub use Options.*
unfoldable pub use Words.*
unfoldable pub use Tables.*
unfoldable pub use System.*
pub use Prim.Native.Nat.{ℕ, zero, suc, ◌+◌, ◌-◌, ◌*◌, ◌/◌, ◌%◌, ◌^◌, ◌≤◌, ◌<◌, bit_or, bit_xor, min}
pub use mathlib.Core.Path.{◌≡◌, refl, sym, ap, ◌∙◌, fun_ext}
pub use mathlib.Core.Logic.{◌≢◌, ◌↔◌, ◌⊎◌, inl, inr}
pub use mathlib.Core.Bool.{Bool, true, false, ◌&&◌, ◌||◌, not}
pub use mathlib.Core.Option.{Option, none, some}
pub use mathlib.Core.List.{List, [], ◌∷◌, ◌++◌, map}
pub use native.Mathlib.Omega.{arith}
pub use native.Mathlib.Decide.{dec_lt, ℕ_discrete}
