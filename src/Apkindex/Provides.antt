-- ===== src/Apkindex/Provides.antt =====
-- internal/apkindex/provides.go: the table from a virtual name to the entry that provides it.
pub mod Newest
use yoe.Common.{
  if◌then◌else◌, Bool, true, false, Option, none, some, List, [], ◌∷◌, map, Text, cut_byte, Dict,
  get, put,
}
use Prim.Native.Nat.{Ordering}
use mathlib.Core.List.{foldl}
use yoe.Apkindex.Entry.{Entry}
use yoe.Apkindex.Version.{compare_versions}

-- `byName`; a nil `*ProvidesTable` is `none`.
abbrev pub ProvidesTable : Type 0
ProvidesTable = Dict Entry

unfoldable pub look_up : Option ProvidesTable → Text → Option Entry
look_up none name = none
look_up (some table) name = get name table

unfoldable pub names : Option ProvidesTable → List Text
names none = []
names (some table) = map (λ (p : Text × Entry). p.0) table

-- The name that a token of the provider side stands for: what is before its first `=`.
unfoldable pub strip_version : Text → Text
strip_version token = elim (cut_byte b'=' token) [ none ↦ token | some (l, _) ↦ l ]

abbrev pub is_newer : Text → Text → Bool
is_newer a b = elim (compare_versions a b) [ Ordering.gt ↦ true | _ ↦ false ]

-- `register` behind its test for an empty token.
unfoldable pub claim : ProvidesTable → Text → Entry → ProvidesTable
claim table key e = elim (get key table) [
  | none ↦ put key e table
  | some cur ↦ if is_newer e.version cur.version then put key e table else table
]

unfoldable pub register : Entry → ProvidesTable → Text → ProvidesTable
register e table [] = table
register e table (c ∷ token) = claim table (strip_version (c ∷ token)) e

unfoldable pub register_entry : ProvidesTable → Entry → ProvidesTable
register_entry table e = foldl (register e) (register e table e.name) e.provides

unfoldable pub build_provides_table : List Entry → ProvidesTable
build_provides_table entries = foldl register_entry [] entries
