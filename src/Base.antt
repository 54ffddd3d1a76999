-- ===== src/Base.antt =====
-- The names that the other modules share, with Boolean tests on the native numbers, lists over
-- them, and the sets of identifiers that stand for the keys of a Go map.
mod Logic
mod Lists
mod Keys
mod Sort
mod Sorted
pub mod Dict
pub mod Float
pub mod Int
pub mod Text
pub use Logic.*
pub use Lists.*
unfoldable pub use Keys.*
unfoldable pub use Sort.*
pub use Sorted.*
pub use Prim.Native.Nat.{ℕ, zero, suc, ◌+◌, ◌-◌, ◌*◌, ◌/◌, ◌%◌, ◌^◌, ◌≤◌, ◌<◌}
pub use Prim.Native.String.{String}
pub use mathlib.Core.Path.{◌≡◌, refl, sym, ap, subst, ◌∙◌}
pub use mathlib.Core.Logic.{◌≢◌, ◌↔◌, ◌⊎◌, inl, inr}
pub use mathlib.Core.Bool.{Bool, true, false, not, ◌&&◌, ◌||◌}
pub use mathlib.Core.Option.{Option, none, some}
pub use mathlib.Core.List.{List, [], ◌∷◌, ◌++◌, map, append-nil, append_assoc}
pub use native.Mathlib.Omega.{arith}
pub use text.Mathlib.Text.{◌==◌ as str_eq}
pub use text.Mathlib.TextEquality.{eq_iff}
