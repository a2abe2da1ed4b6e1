-- ===== src/Base.antt =====
-- The names that the other modules share: the libraries', passed on, and those of the children.
mod Tests
mod Classes
mod Bytes
mod Int
pub mod Compare
pub mod Sort
pub mod GoMap
pub mod Nested
pub use Tests.*
pub use Int.*
unfoldable pub use Classes.{bytes_eq}
pub use Classes.{Eq, eq_refl, beq-false, bytes_eq_iff, ◌==◌, nat_eq, string_eq, bool_eq, pair_eq}
pub use Bytes.{GoString, str}
unfoldable pub use Bytes.{
  contains_byte, is_prefix, trim_suffix, index_from, index, replace_all, last_index_byte,
  to_lower_byte, to_lower,
}
pub use Prim.Native.Nat.{ℕ, zero, suc, ◌+◌, ◌-◌, ◌*◌, ◌/◌, ◌%◌, ◌^◌, ◌≤◌, ◌<◌}
pub use Prim.Native.String.{String}
pub use mathlib.Core.Path.{◌≡◌, refl, sym, ap, subst, ◌∙◌}
pub use mathlib.Core.Logic.{◌≢◌, ◌↔◌, ◌⊎◌, inl, inr}
pub use mathlib.Core.Bool.{Bool, true, false, not, ◌&&◌, ◌||◌}
pub use mathlib.Core.Option.{Option, none, some}
pub use mathlib.Core.List.{List, [], ◌∷◌, ◌++◌, map}
pub use native.Mathlib.Omega.{arith}
