-- ===== src/Apkindex/Materialize.antt =====
-- internal/apkindex/materialize.go: a unit from an entry of the index.
pub mod Closure
pub mod Outcome
use yoe.Common.{
  if◌then◌else◌, Result, ◌>>=◌, ◌>>◌, ok, err, Bool, true, false, ◌&&◌, ◌||◌, Option, none, some,
  List, [], ◌∷◌, ◌++◌, Text, codes, text_eq, has_prefix, cut_byte, elem,
}
use yoe.Apkindex.Dep.{Dep, DepKind, bare, path, DepError, parse_dep}
use yoe.Apkindex.Entry.{Entry}
use yoe.Apkindex.Provides.{ProvidesTable, look_up}
use yoe.Apkindex.Version.{split_pkgver}
use yoe.Starlark.Units.{PackageUnit, empty_unit}

-- `Providers`: the name of the package that satisfies a token.
abbrev pub Providers : Type 0
Providers = Text → Option Text

-- `TableProviders.Resolve`
unfoldable pub resolve_in_table : Option ProvidesTable → Providers
unfolding look_up
resolve_in_table table token = elim (look_up table token) [ none ↦ none | some e ↦ some e.name ]

pub data MaterializeError : Type 0 where
  nil_providers : MaterializeError
  bad_dep : Text → DepError → MaterializeError
  unresolved : Text → Text → MaterializeError

abbrev pub is_path : DepKind → Bool
is_path path = true
is_path _ = false

abbrev pub is_bare : DepKind → Bool
is_bare bare = true
is_bare _ = false

-- The package that a parsed token asks for: none where the loop of `resolveRuntimeDeps` goes on to
-- the next token before it comes to its test for duplicates.
unfoldable pub wanted_dep : Text → Providers → Text → Dep → Result MaterializeError (Option Text)
wanted_dep name providers raw d =
    if d.conflict
    then ok none
    else if is_path d.kind
    then ok none
    else if is_bare d.kind && text_eq d.name name
    then ok none
    else elim (providers d.name) [
      | none ↦ err (unresolved raw d.name)
      | some pkg ↦ if text_eq pkg name then ok none else ok (some pkg)
    ]

unfoldable pub wanted : Text → Providers → Text → Result MaterializeError (Option Text)
wanted name providers raw = elim (parse_dep raw) [
  | err e ↦ err (bad_dep raw e)
  | ok d ↦ wanted_dep name providers raw d
]

-- The test for duplicates and the append. The keys of `seen` are the elements of `out`.
unfoldable pub add_new : List Text → Option Text → List Text
add_new out none = out
add_new out (some pkg) = if elem pkg out then out else out ++ (pkg ∷ [])

unfoldable pub resolve_from :
    Text → Providers → List Text → List Text → Result MaterializeError (List Text)
resolve_from name providers out [] = ok out
resolve_from name providers out (raw ∷ rest) = elim (wanted name providers raw) [
  | err e ↦ err e
  | ok pkg ↦ resolve_from name providers (add_new out pkg) rest
]

unfoldable pub resolve_runtime_deps : Entry → Option Providers → Result MaterializeError (List Text)
resolve_runtime_deps entry none = err nil_providers
resolve_runtime_deps entry (some providers) = resolve_from entry.name providers [] entry.deps

-- `filterProvides`: what a token leaves, if anything.
unfoldable pub bare_provide : Text → Text
bare_provide p =
    if has_prefix p (codes "so:") || has_prefix p (codes "cmd:")
    then []
    else elim (cut_byte b'=' p) [ none ↦ p | some (l, _) ↦ l ]

unfoldable pub keep_provide : Text → List Text → List Text
keep_provide [] out = out
keep_provide (c ∷ p) out = (c ∷ p) ∷ out

unfoldable pub filter_provides : List Text → List Text
unfolding bare_provide keep_provide
filter_provides [] = []
filter_provides (p ∷ ps) = keep_provide (bare_provide p) (filter_provides ps)

unfoldable pub materialize_unit :
    Entry → Option Providers → Text → Result MaterializeError PackageUnit
materialize_unit entry providers module_name = do
  deps ← resolve_runtime_deps entry providers
  ok (record empty_unit {
    name = entry.name;
    class = codes "unit";
    description = entry.description;
    license = entry.license;
    apk_checksum = entry.checksum_text;
    runtime_deps = deps;
    provides = filter_provides entry.provides;
    replaces = filter_provides entry.replaces;
    home_module = module_name;
    version = (split_pkgver entry.version).0;
    release = (split_pkgver entry.version).1;
  })
