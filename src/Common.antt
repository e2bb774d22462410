-- ===== src/Common.antt =====
-- The names that the other modules share: the libraries', passed on, and those of the children.
mod Tests
mod Texts
mod Lists
mod Results
mod Dicts
mod Sets
mod Counts
mod Sorting
mod Ints
mod Fields
pub mod Worklist
pub mod Kahn
pub use Tests.*
pub use Lists.*
pub use Results.*
pub use Sets.*
unfoldable pub use Ints.*
unfoldable pub use Counts.*
unfoldable pub use Sorting.{compare_text, insert_sorted, sort_strings}
pub use Sorting.{count-sort_strings, elem-sort_strings}
pub use Prim.Native.Nat.{ℕ, zero, suc, ◌+◌, ◌-◌, ◌*◌, ◌/◌, ◌%◌, ◌^◌, ◌≤◌, ◌<◌}
pub use mathlib.Core.Path.{◌≡◌, refl, sym, ap, ap₂, ◌∙◌, subst}
pub use mathlib.Core.Logic.{◌≢◌, ◌↔◌, ◌⊎◌, inl, inr}
pub use mathlib.Core.Bool.{Bool, true, false, not, ◌&&◌, ◌||◌}
pub use mathlib.Core.Option.{Option, none, some}
pub use mathlib.Core.List.{List, [], ◌∷◌, ◌++◌, map, append-nil, append_assoc}
pub use native.Mathlib.Omega.{arith}
pub use Texts.{
  text_eq_refl, eq_of_text_eq, text_eq_iff, has_prefix_append, cut_byte-some, cut_byte-none,
  cut_byte-append,
}
unfoldable pub use Texts.{Text, codes, text_eq, has_prefix, cut_byte, has_byte}
pub use Dicts.{get-put, length-keys, keys-put}
unfoldable pub use Dicts.{Dict, get, put, flag, elem, keys_of_dict}
unfoldable pub use Fields.{
  is_blank, add_token, tokens_from, split_fields, join_fields, has_blank, is_token,
}
pub use Fields.{has_blank-append, is_token-split_fields, split_fields-join_fields}
