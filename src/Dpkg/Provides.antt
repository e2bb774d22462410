-- ===== src/Dpkg/Provides.antt =====
-- internal/dpkg/packages.go and provides.go: an entry of the index, and the table from a virtual
-- name to the entry that provides it. The package `version` is a pair of parameters.
use yoe.Common.{
  if◌then◌else◌, Result, ◌>>=◌, ok, err, compare_text, ℕ, ◌+◌, Bool, true, false, Option, none,
  some, List, [], ◌∷◌, map, Text, Dict, get, put,
}
use Prim.Native.Nat.{Ordering}
use mathlib.Core.List.{foldl}
use yoe.Dpkg.Deps.{Grammar, Possibility, parse_provides, trim_space}

pub record Entry : Type 0 where
  pub package_name : Text
  pub source : Text
  pub version : Text
  pub architecture : Text
  pub multi_arch : Text
  pub maintainer : Text
  pub description : Text
  pub section : Text
  pub priority : Text
  pub homepage : Text
  pub installed_size : ℕ
  pub size : ℕ
  pub filename : Text
  pub sha256 : Text
  pub sha1 : Text
  pub md5sum : Text
  pub depends : Text
  pub pre_depends : Text
  pub recommends : Text
  pub suggests : Text
  pub enhances : Text
  pub conflicts : Text
  pub breaks : Text
  pub replaces : Text
  pub provides : Text

-- `ParseIndex` behind the stanzas that `control.Unmarshal` returns: the entries, or the position of
-- the first one without a name.
unfoldable pub index_entries : ℕ → List Entry → Result ℕ (List Entry)
index_entries i [] = ok []
index_entries i (s ∷ stanzas) =
    let rest = index_entries (i + 1) stanzas in
    elim s.package_name [ [] ↦ err i | _ ∷ _ ↦ rest >>= λ es. ok (s ∷ es) ]

abbrev pub ProvidesTable : Type 0
ProvidesTable = Dict Entry

unfoldable pub look_up : Option ProvidesTable → Text → Option Entry
look_up none name = none
look_up (some table) name = get name table

unfoldable pub names : Option ProvidesTable → List Text
names none = []
names (some table) = map (λ (p : Text × Entry). p.0) table

abbrev is_above : Text → Text → Bool
is_above a b = elim (compare_text a b) [ Ordering.gt ↦ true | _ ↦ false ]

-- `version` is the type of the package's versions, `parse` its `Parse`, and `above a b` is
-- `Compare(a, b) > 0`.
module _ {Version : Type 0} (parse : Text → Option Version) (above : Version → Version → Bool)
    (grammar : Grammar) where
  unfoldable pub newer_version : Text → Text → Bool
  newer_version a b = elim (parse a) [
    | none ↦ is_above a b
    | some av ↦ elim (parse b) [ none ↦ is_above a b | some bv ↦ above av bv ]
  ]

  -- `register` behind its test for an empty token.
  unfoldable pub claim : ProvidesTable → Text → Text → Entry → ProvidesTable
  claim table token ver e = elim (get token table) [
    | none ↦ put token e table
    | some cur ↦ if newer_version ver cur.version then put token e table else table
  ]

  unfoldable pub register : Text → Entry → ProvidesTable → Text → ProvidesTable
  register ver e table token = elim (trim_space token) [
    | [] ↦ table
    | c ∷ t ↦ claim table (c ∷ t) ver e
  ]

  unfoldable pub provided_names : Entry → List Text
  provided_names e = elim e.provides [
    | [] ↦ []
    | c ∷ t ↦ elim (parse_provides grammar (c ∷ t)) [
      | err _ ↦ []
      | ok ps ↦ map (λ (p : Possibility). p.name) ps
    ]
  ]

  unfoldable pub register_entry : ProvidesTable → Entry → ProvidesTable
  register_entry table e =
      foldl (register e.version e) (register e.version e table e.package_name) (provided_names e)

  unfoldable pub build_provides_table : List Entry → ProvidesTable
  build_provides_table entries = foldl register_entry [] entries
