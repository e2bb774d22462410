-- ===== src/Dpkg/Materialize.antt =====
-- internal/dpkg/materialize.go: a unit from an entry of the index.
pub mod Outcome
use yoe.Common.{
  if◌then◌else◌, Result, ◌>>=◌, ◌>>◌, ok, err, Option, none, some, List, [], ◌∷◌, ◌++◌, Text, codes,
  text_eq, elem,
}
use yoe.Dpkg.Deps.{Grammar, Possibility, Relation, parse_dependency, parse_provides}
use yoe.Dpkg.Provides.{Entry, ProvidesTable, look_up}
use yoe.Starlark.Units.{PackageUnit, empty_unit}

-- `Providers`: the package that satisfies a token.
abbrev pub Providers : Type 0
Providers = Text → Option Text

-- `TableProviders.Resolve`
unfoldable pub resolve_in_table : Option ProvidesTable → Providers
unfolding look_up
resolve_in_table table token = elim (look_up table token) [
  | none ↦ none
  | some e ↦ some e.package_name
]

pub data MaterializeError : Type 0 where
  nil_providers : MaterializeError
  bad_dependency bad_provides : Text → MaterializeError

-- The first name that is not empty among the alternatives of a relation.
unfoldable pub first_name : List Possibility → Option Text
first_name [] = none
first_name (p ∷ ps) = elim p.name [ [] ↦ first_name ps | c ∷ s ↦ some (c ∷ s) ]

unfoldable pub tokens_of : List Relation → List Text
tokens_of [] = []
tokens_of (r ∷ rs) = elim (first_name r.possibilities) [
  | none ↦ tokens_of rs
  | some t ↦ t ∷ tokens_of rs
]

unfoldable pub relation_tokens : Grammar → Text → Result Text (List Text)
relation_tokens grammar line = do dep ← parse_dependency grammar line; ok (tokens_of dep.relations)

unfoldable pub named : List Possibility → List Text
named [] = []
named (p ∷ ps) = elim p.name [ [] ↦ named ps | c ∷ s ↦ (c ∷ s) ∷ named ps ]

unfoldable pub bare_provides : Grammar → Text → Result Text (List Text)
bare_provides grammar [] = ok []
bare_provides grammar (c ∷ line) = do provs ← parse_provides grammar (c ∷ line); ok (named provs)

-- One round of the loop over the tokens; the keys of `seen` are the elements of `out`.
unfoldable pub add_dep : Providers → Text → List Text → Text → List Text
add_dep providers name out t = elim (providers t) [
  | none ↦ out
  | some pkg ↦ if text_eq pkg name then out else if elem pkg out then out else out ++ (pkg ∷ [])
]

unfoldable pub add_deps : Providers → Text → List Text → List Text → List Text
add_deps providers name out [] = out
add_deps providers name out (t ∷ ts) = add_deps providers name (add_dep providers name out t) ts

abbrev pub dependency_line : Entry → Text
dependency_line entry = entry.pre_depends ++ (codes ", " ++ entry.depends)

abbrev pub unit_of : Entry → Text → Text → List Text → List Text → PackageUnit
unit_of entry module_name distro deps provs = record empty_unit {
  name = entry.package_name;
  class = codes "unit";
  description = entry.description;
  version = entry.version;
  runtime_deps = deps;
  provides = provs;
  home_module = module_name;
  distro = distro;
}

unfoldable pub materialize_unit :
    Grammar → Entry → Option Providers → Text → Text → Result MaterializeError PackageUnit
materialize_unit grammar entry none module_name distro = err nil_providers
materialize_unit grammar entry (some providers) module_name distro =
    elim (relation_tokens grammar (dependency_line entry)) [
      | err line ↦ err (bad_dependency line)
      | ok tokens ↦ elim (bare_provides grammar entry.provides) [
        | err line ↦ err (bad_provides line)
        | ok provs ↦ ok (
            unit_of entry module_name distro (add_deps providers entry.package_name [] tokens)
              provs)
      ]
    ]
