-- ===== src/Base.antt =====
-- The names that the other modules share: the library's, passed on, and those of the children
-- (Boolean tests, lists by native numbers, text as code points, results, rule sets).
mod Tests
mod Lists
mod Chars
mod Strings
mod Int
mod Raising
pub use Tests.*
pub use Lists.*
pub use Chars.*
pub use Strings.*
pub use Int.*
pub use Raising.*
pub use Prim.Native.Nat.{ℕ, zero, suc, ◌+◌, ◌-◌, ◌*◌, ◌/◌, ◌%◌, ◌^◌, ◌≤◌, ◌<◌}
pub use Prim.Native.String.{String}
pub use mathlib.Core.Path.{◌≡◌, refl, sym, ap, ◌∙◌, subst, fun_ext}
pub use mathlib.Core.Logic.{◌≢◌, ◌↔◌, ◌⊎◌, inl, inr}
pub use mathlib.Core.Bool.{Bool, true, false, not, ◌&&◌, ◌||◌}
pub use mathlib.Core.Option.{Option, none, some}
pub use mathlib.Core.List.{List, [], ◌∷◌, ◌++◌, map}
pub use native.Mathlib.Omega.{arith}
unfoldable pub use Chars.{text_eq}
unfoldable pub use Strings.{
  lower, split_on, partition, starts_with, ends_with, rstrip, after_prefix, remove_prefix,
}
