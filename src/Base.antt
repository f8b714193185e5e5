-- ===== src/Base.antt =====
-- The names that the other modules share: the libraries', passed on, and those of the children.
-- This file and its children model what the C++ of client/ takes from the language and its
-- standard library: unsigned arithmetic, std::string, raw buffers, exceptions.
mod Tests
mod Lists
mod Results
mod Text
mod Numerals
mod Memory
pub mod Exec
pub mod StdMap
pub use Tests.*
pub use Lists.*
pub use Results.*
unfoldable pub use Text.*
unfoldable pub use Numerals.*
unfoldable pub use Memory.*
pub use Prim.Native.Nat.{ℕ, zero, suc, ◌+◌, ◌-◌, ◌*◌, ◌/◌, ◌%◌, ◌^◌, ◌≤◌, ◌<◌}
pub use Prim.Native.String.{String}
pub use mathlib.Core.Path.{◌≡◌, refl, sym, ap, ap₂, subst, ◌∙◌}
pub use mathlib.Core.Logic.{◌≢◌, ◌↔◌, ◌⊎◌, inl, inr}
pub use mathlib.Core.Bool.{Bool, true, false, not, ◌&&◌, ◌||◌}
pub use mathlib.Core.Option.{Option, none, some}
pub use mathlib.Core.List.{List, [], ◌∷◌, ◌++◌, map, append-nil, append_assoc}
pub use native.Mathlib.Omega.{arith}
