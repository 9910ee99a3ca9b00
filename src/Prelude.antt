-- ===== src/Prelude.antt =====
-- The names that the other modules share: the libraries' and those of the children.
mod Tests
mod Lists
mod Tables
mod Changes
mod Int
mod Outcome
unfoldable pub use Tests.{text_eq, text_leb, starts_with}
pub use Tests.*
pub use Lists.*
unfoldable pub use Tables.{find_first, select, update_where, latest, uses, sort_by, insert_by, any}
pub use Tables.{
  select_holds, All-find_first, All-update_where, find_first-All, any-uses, uses-update_where,
  uses-find_first, find_first-select_key, any-find_first, find_first_holds, find_first-select,
  uses-append, uses-select, update_where-find,
}
pub use Changes.{
  any-sort_by, any-append, update_where-append, update_where-none, select-none,
  find_first-update_own, select-append, find_first-none, update_where-find_other, find_first-append,
}
pub use Int.*
pub use Outcome.*
pub use Prim.Native.Nat.{ℕ, zero, suc, ◌+◌, ◌-◌, ◌*◌, ◌/◌, ◌%◌, ◌≤◌, ◌<◌}
pub use mathlib.Core.Path.{◌≡◌, refl, sym, ap, subst, ◌∙◌}
pub use mathlib.Core.Logic.{◌≢◌, ◌↔◌, ◌⊎◌, inl, inr}
pub use mathlib.Core.Bool.{Bool, true, false, not, ◌&&◌, ◌||◌}
pub use mathlib.Core.Option.{Option, none, some}
pub use mathlib.Core.List.{List, [], ◌∷◌, ◌++◌, map}
pub use native.Mathlib.Omega.{arith}
