-- ===== src/Prelude.antt =====
-- The names that every module shares: those of the libraries, passed on, and the results, lists
-- and texts of two child modules.
pub mod Results
pub mod Lists
pub mod Texts
pub mod Integers
pub mod Words
pub mod Ledger
unfoldable pub use Results.*
unfoldable pub use Lists.*
unfoldable pub use Texts.*
unfoldable pub use Integers.*
unfoldable pub use Words.*
unfoldable pub use Ledger.*
pub use Prim.Native.Nat.{ℕ, zero, suc, ◌+◌, ◌-◌, ◌*◌, ◌/◌, ◌%◌, ◌^◌, ◌≤◌, ◌<◌}
pub use Prim.Native.String.{String}
pub use mathlib.Core.Path.{◌≡◌, refl, sym, ap, ◌∙◌}
pub use mathlib.Core.Logic.{◌≢◌, ◌↔◌, ◌⊎◌, inl, inr}
pub use mathlib.Core.Bool.{Bool, true, false, ◌&&◌, ◌||◌, not}
pub use mathlib.Core.Option.{Option, none, some}
pub use mathlib.Core.List.{List, [], ◌∷◌, ◌++◌, map, append_assoc, append-nil}
pub use native.Mathlib.Omega.{arith}
