-- ===== src/Dpkg/Tests.antt =====
-- A package that depends on another one and on an alternative that nothing provides.
use yoe.Common.{
  if◌then◌else◌, Result, ok, err, ◌≡◌, refl, Bool, true, false, none, some, List, [], ◌∷◌, map,
  Text, codes, text_eq,
}
use yoe.Dpkg.Deps.{
  Grammar, Parsed, Dependency, parse_dependency, relation_of, possibility_of, trim_space, trim_left,
  trim_right,
}
use yoe.Dpkg.Provides.{Entry}
use yoe.Dpkg.Materialize.{
  Providers, bare_provides, dependency_line, materialize_unit, relation_tokens, MaterializeError,
}
use yoe.Dpkg.Materialize.Outcome.{IsMaterialized, materialize_unit-AsksFor}
use yoe.Starlark.Units.{PackageUnit}

abbrev plain : Text → Parsed
plain name = record { name = name; arch = none; constraint = none }

abbrev parsed_line : List (List Parsed)
parsed_line =
    (plain (codes "libc6") ∷ [])
    ∷ (plain (codes "mawk") ∷ plain (codes "libc6") ∷ [])
    ∷ (plain (codes "bash") ∷ [])
    ∷ []

-- A grammar that reads one line.
abbrev grammar : Grammar
grammar line = if text_eq line (codes "libc6, mawk | libc6, bash") then some parsed_line else none

abbrev providers : Providers
providers token = if text_eq token (codes "mawk") then none else some token

abbrev bash : Entry
bash = record {
  package_name = codes "bash";
  source = [];
  version = codes "5.2-1";
  architecture = [];
  multi_arch = [];
  maintainer = [];
  description = [];
  section = [];
  priority = [];
  homepage = [];
  installed_size = 0;
  size = 0;
  filename = [];
  sha256 = [];
  sha1 = [];
  md5sum = [];
  depends = codes "mawk | libc6, bash";
  pre_depends = codes "libc6";
  recommends = [];
  suggests = [];
  enhances = [];
  conflicts = [];
  breaks = [];
  replaces = [];
  provides = [];
}

abbrev dependency : Dependency
dependency = record { relations = map relation_of parsed_line }

parse_bash : parse_dependency grammar (dependency_line bash) ≡ ok dependency
unfolding parse_dependency trim_space trim_left trim_right relation_of possibility_of text_eq
parse_bash = refl

provides_bash : bare_provides grammar bash.provides ≡ ok []
unfolding bare_provides
provides_bash = refl

abbrev is_ok : Result MaterializeError PackageUnit → Bool
is_ok (ok _) = true
is_ok (err _) = false

abbrev debian_bash : Result MaterializeError PackageUnit
debian_bash = materialize_unit grammar bash (some providers) [] (codes "debian")

-- A unit comes out, as both lines are read.
bash_read : is_ok debian_bash ≡ true
unfolding materialize_unit relation_tokens bare_provides parse_dependency trim_space trim_left
    trim_right relation_of possibility_of text_eq
bash_read = refl

materialize_unit-AsksFor_example :
    IsMaterialized grammar bash providers (codes "debian") debian_bash
materialize_unit-AsksFor_example =
    materialize_unit-AsksFor grammar bash providers (codes "debian") []
