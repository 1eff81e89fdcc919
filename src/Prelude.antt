-- ===== src/Prelude.antt =====
-- The names that the other modules share: the libraries' names in use, Boolean tests, buffers as
-- lists, counted loops and sums.
mod Tests
pub mod Int
mod Lists
mod Loops
mod Passes
mod Scatter
mod Strings
mod Planes
pub use Tests.*
pub use Lists.*
unfoldable pub use Loops.*
pub use Passes.*
pub use Scatter.*
unfoldable pub use Strings.*
pub use Planes.*
pub use Prim.Native.Nat.{ℕ, zero, suc, ◌+◌, ◌-◌, ◌*◌, ◌/◌, ◌%◌, ◌^◌, ◌≤◌, ◌<◌, min, max}
pub use mathlib.Core.Path.{◌≡◌, refl, sym, ap, ap₂, ◌∙◌}
pub use mathlib.Core.Logic.{◌≢◌, ◌↔◌, ◌⊎◌, inl, inr}
pub use mathlib.Core.Bool.{Bool, true, false, not, ◌&&◌, ◌||◌}
pub use mathlib.Core.Option.{Option, none, some}
pub use mathlib.Core.List.{List, [], ◌∷◌, ◌++◌, map}
pub use native.Mathlib.Omega.{arith}
unfoldable pub use native.Mathlib.Decide.{dec_lt, dec_le, ℕ_discrete}
