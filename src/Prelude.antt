-- ===== src/Prelude.antt =====
-- The names that all modules share: the libraries', passed on, and the helpers of the children.
mod Tests
mod Lists
mod Int
pub mod Texts
pub use Tests.*
pub use Lists.*
pub use Int.*
unfoldable pub use Texts.{lstrip, rstrip, split_comma, join_comma, is_space}
pub use Texts.{Text, same_text, is_empty, same_text_self, same_text→≡, strip}
pub use Prim.Native.Nat.{
  ℕ, zero, suc, ◌+◌, ◌-◌, ◌*◌, ◌/◌, ◌%◌, ◌^◌, ◌≤◌, ◌<◌, min, max, compare, Ordering,
}
pub use Prim.Native.String.{String}
pub use mathlib.Core.Path.{◌≡◌, refl, sym, ap, ◌∙◌}
pub use mathlib.Core.Logic.{◌≢◌, ◌↔◌, ◌⊎◌, inl, inr}
pub use mathlib.Core.Bool.{Bool, true, false, not, ◌&&◌, ◌||◌}
pub use mathlib.Core.Option.{Option, none, some}
pub use mathlib.Core.List.{List, [], ◌∷◌, ◌++◌, map}
pub use native.Mathlib.Omega.{arith}
pub use native.Mathlib.Decide.{ℕ_discrete}
