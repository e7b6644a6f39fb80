-- ===== src/Common.antt =====
-- The names that the other modules share: the libraries', passed on, and those of the children.
pub mod Tests
pub mod Lists
pub mod Strings
pub mod Result
pub mod Maps
pub mod Sort
pub mod Int
pub use Tests.{
  ltb, leb, ◌==◌, if◌then◌else◌, ltb→lt, lt→ltb, leb→le, ==_iff, Bool-cases, Option-cases,
  List-cases,
}
pub use Tests.{is_none, is_some}
pub use Lists.{length, length-append, Each, OneOf}
pub use Lists.{Each-self, Each-append, filter_by-Each, filter_by-OneOf}
unfoldable pub use Lists.{filter_by, find_by, any_of, take}
unfoldable pub use Strings.{eq_text, lt_text}
pub use Strings.{Text, eq_text_iff, eq_text_refl, eq_text_comm, units}
pub use Strings.{lt_text_irrefl, lt_text-asymm, lt_text_trans, lt_text-total}
pub use Prim.Native.Nat.{ℕ, zero, suc, ◌+◌, ◌-◌, ◌*◌, ◌/◌, ◌%◌, ◌^◌, ◌≤◌, ◌<◌}
pub use mathlib.Core.Path.{◌≡◌, refl, sym, ap, ◌∙◌, subst}
pub use mathlib.Core.Logic.{◌≢◌, ◌↔◌, ◌⊎◌, inl, inr}
pub use mathlib.Core.Bool.{Bool, true, false, not, ◌&&◌, ◌||◌}
pub use mathlib.Core.Option.{Option, none, some}
pub use mathlib.Core.List.{List, [], ◌∷◌, ◌++◌, map}
pub use native.Mathlib.Omega.{arith}
unfoldable pub use native.Mathlib.Decide.{ℕ_discrete}
