-- ===== src/Base.antt =====
-- What every module shares: the libraries' names passed on, tests on numbers, lists over the native
-- numbers, integers, results, and Go strings as byte lists.
mod Tests
mod Lists
mod Int
mod Outcome
mod Strings
mod Assoc
mod JsonTree
mod Sorting
pub use Tests.*
pub use Lists.*
pub use Int.*
pub use Outcome.*
pub use Assoc.*
pub use JsonTree.*
pub use Sorting.*
unfoldable pub use Strings.{
  has_prefix, has_suffix, contains, contains_byte, trim_suffix, split, cut, trim_space,
}
pub use Strings.{Str, codes, eq_str, eq_str_iff, eq_str_refl, lt_str}
pub use Prim.Native.Nat.{ℕ, zero, suc, ◌+◌, ◌-◌, ◌*◌, ◌/◌, ◌%◌, ◌^◌, ◌≤◌, ◌<◌}
pub use mathlib.Core.Path.{◌≡◌, refl, sym, ap, ap₂, subst, ◌∙◌}
pub use mathlib.Core.Logic.{◌≢◌, ◌↔◌, ◌⊎◌, inl, inr}
pub use mathlib.Core.Bool.{Bool, true, false, not, ◌&&◌, ◌||◌}
pub use mathlib.Core.Option.{Option, none, some}
pub use mathlib.Core.List.{List, [], ◌∷◌, ◌++◌, map, append-nil, append_assoc}
pub use native.Mathlib.Omega.{arith}
