-- ===== src/Base.antt =====
-- The vocabulary that all modules share: the libraries' names, Boolean tests on numbers, lists and
-- dictionaries as Python has them, integers, and stable sorting.
mod Tests
mod Lists
mod Int
mod Tables
mod Rows
mod Sort
mod Texts
mod Decimals
pub use Tests.*
pub use Lists.*
pub use Int.*
pub use Texts.{
  Text, codes, list_beq, list_beq_iff, list_eq, Unicode, starts_with, is_infix, lstrip, rstrip,
  strip, length-lstrip, text_or, ascii,
}
pub use Tables.*
pub use Decimals.*
pub use Rows.{
  row_of, upsert, row_of-upsert, replace, replace_own, replace_other, keep_all, keep_nothing,
  keep-append,
}
unfoldable pub use Sort.{sort}
pub use Sort.{
  sort-perm, length-sort, IsSorted, sort-IsSorted, IsSorted-slice, IsSorted-map, All-of_sort,
  All-sort, contains-map-sort, Distinct-map-sort, sort-coarse,
}
pub use Prim.Native.Nat.{ℕ, zero, suc, ◌+◌, ◌-◌, ◌*◌, ◌/◌, ◌%◌, ◌≤◌, ◌<◌, min, max}
pub use Prim.Native.String.{String}
pub use mathlib.Core.Path.{◌≡◌, refl, sym, ap, ◌∙◌, subst}
pub use mathlib.Core.Logic.{◌≢◌, ◌↔◌, ◌⊎◌, inl, inr}
pub use mathlib.Core.Bool.{Bool, true, false, not, ◌&&◌, ◌||◌, false≢true}
pub use mathlib.Core.Option.{Option, none, some}
pub use mathlib.Core.List.{
  List, [], ◌∷◌, ◌++◌, map, reverse, Perm, map-append, append_assoc, append-nil, reverse-cons,
}
pub use native.Mathlib.Omega.{arith}
