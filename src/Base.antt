-- ===== src/Base.antt =====
-- What the modules share: library names passed on, Boolean tests, lists measured by the native
-- numbers, uint64 arithmetic, and results of Go code that may panic.
mod Tests
mod Lists
mod Words
mod Outcome
mod Floats
mod Sorting
mod Membership
pub use Tests.*
pub use Lists.*
pub use Words.*
pub use Outcome.*
pub use Floats.{f64_mod, float64-exact}
unfoldable pub use Floats.{float64, float_from, round_to}
unfoldable pub use Sorting.{insert, sort, count_from}
pub use Sorting.{count_from-position, length-sort}
pub use Membership.*
pub use Prim.Native.Nat.{ℕ, zero, suc, ◌+◌, ◌-◌, ◌*◌, ◌/◌, ◌%◌, ◌≤◌, ◌<◌, min, max}
pub use Prim.Native.String.{String}
pub use mathlib.Core.Path.{◌≡◌, refl, sym, ap, subst, ◌∙◌}
pub use mathlib.Core.Logic.{◌≢◌, ◌↔◌, ◌⊎◌, inl, inr}
pub use mathlib.Core.Bool.{Bool, true, false, not, ◌&&◌, ◌||◌}
pub use mathlib.Core.Option.{Option, none, some}
pub use mathlib.Core.List.{List, [], ◌∷◌, ◌++◌, map}
pub use native.Mathlib.Omega.{arith}
pub use text.Mathlib.Text.{◌==◌ as str_eq}
pub use text.Mathlib.TextEquality.{eq_iff}
