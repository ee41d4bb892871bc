-- ===== src/Prelude.antt =====
-- The names that all components share: the libraries', passed on, and those of the children.
mod Tests
mod Lists
mod Equality
mod Strings
mod Trim
mod Dictionary
pub mod Int
pub use Tests.{
  ltb, ◌>>=◌, leb, if◌then◌else◌, ltb→lt, lt→ltb, leb→le, Bool-cases, Option-cases, tests,
}
pub use Lists.*
pub use Equality.*
pub use Strings.*
pub use Trim.*
unfoldable pub use Strings.{is_space}
pub use Dictionary.{
  Dict, lookup-insert, lookup-insert_self, lookup-remove, lookup-append_one, DistinctKeys,
  remove-insert_absent, length-insert_absent, absent-insert, remove-DistinctKeys,
  append-DistinctKeys, remove_absent,
}
unfoldable pub use Dictionary.{lookup, insert, remove}
pub use Prim.Native.Nat.{ℕ, zero, suc, ◌+◌, ◌-◌, ◌*◌, ◌/◌, ◌%◌, ◌^◌, ◌≤◌, ◌<◌, min, max}
pub use Prim.Native.String.{String}
pub use mathlib.Core.Path.{◌≡◌, refl, sym, ap, ◌∙◌, fun_ext, subst}
pub use mathlib.Core.Logic.{◌≢◌, ◌↔◌, ◌⊎◌, inl, inr}
pub use mathlib.Core.Bool.{Bool, true, false, not, ◌&&◌, ◌||◌}
pub use mathlib.Core.Option.{Option, none, some}
pub use mathlib.Core.List.{
  List, [], ◌∷◌, ◌++◌, map, reverse, append-nil, append_assoc, reverse-append, reverse-reverse,
}
pub use native.Mathlib.Omega.{arith}
