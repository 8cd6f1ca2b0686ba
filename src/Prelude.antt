-- ===== src/Prelude.antt =====
-- Names that every part of the model shares: the library's, passed on, and those of the children
-- below (tests on numbers, lists, signed integers, results, tables of rows).
mod Tests
mod Lists
pub mod Int
pub mod Results
pub mod Table
pub mod OrderBy
pub mod Sorted
pub use Tests.*
pub use Lists.*
pub use Int.{
  ℤ, pos, negsuc, pos_part, neg_part, ◌≤ℤ◌, ltb_ℤ, leb_ℤ, eqb_ℤ, int_laws, parts_of_eq,
  parts_exclusive,
}
unfoldable pub use Int.{◌+ℤ◌, ◌-ℤ◌}
pub use Results.{Result, ok, err, ◌>>=◌, ◌>>◌, raise_if, or_raise}
pub use Prim.Native.Nat.{ℕ, zero, suc, ◌+◌, ◌-◌, ◌*◌, ◌/◌, ◌%◌, ◌^◌, ◌≤◌, ◌<◌, min, max}
pub use mathlib.Core.Path.{◌≡◌, refl, sym, ap, ◌∙◌}
pub use mathlib.Core.Logic.{◌≢◌, ◌↔◌, ◌⊎◌, inl, inr}
pub use mathlib.Core.Bool.{Bool, true, false, ◌&&◌, ◌||◌, not}
pub use mathlib.Core.Option.{Option, none, some}
pub use mathlib.Core.List.{List, [], ◌∷◌, ◌++◌, map}
pub use native.Mathlib.Omega.{arith}
