-- ===== src/Starlark/Units.antt =====
-- internal/starlark/types.go: `Unit`, its dependencies for a distro, and its buildability. The
-- fields are those that the modelled code reads or writes; of a task only its container is kept.
use yoe.Common.{
  ℤ, pos, ℕ, Bool, false, not, Option, none, some, List, [], ◌∷◌, ◌++◌, Text, text_eq, Dict, get,
}

pub record PackageUnit : Type 0 where
  pub name : Text
  pub version : Text
  pub release : ℕ
  pub class : Text
  pub description : Text
  pub license : Text
  pub distro : Text
  pub scope : Text
  pub apk_checksum : Text
  pub passthrough_apk : Text
  pub deps : List Text
  pub runtime_deps : List Text
  pub distro_deps : Dict (List Text)
  pub distro_runtime_deps : Dict (List Text)
  pub container : Text
  pub task_containers : List Text
  pub provides : List Text
  pub replaces : List Text
  pub home_module : Text
  -- below zero for the units of feeds
  pub module_index : ℤ
  pub artifacts : List Text
  pub unbuildable_machine : Text

-- `Unit{}`
abbrev pub empty_unit : PackageUnit
empty_unit = record {
  name = [];
  version = [];
  release = 0;
  class = [];
  description = [];
  license = [];
  distro = [];
  scope = [];
  apk_checksum = [];
  passthrough_apk = [];
  deps = [];
  runtime_deps = [];
  distro_deps = [];
  distro_runtime_deps = [];
  container = [];
  task_containers = [];
  provides = [];
  replaces = [];
  home_module = [];
  module_index = pos 0;
  artifacts = [];
  unbuildable_machine = [];
}

-- The merge that `DepsForDistro` and `RuntimeDepsForDistro` share.
unfoldable pub merge_deps : List Text → Dict (List Text) → Text → List Text
merge_deps deps extra [] = deps
merge_deps deps extra (c ∷ distro) = elim (get (c ∷ distro) extra) [
  | none ↦ deps
  | some more ↦ deps ++ more
]

unfoldable pub deps_for_distro : PackageUnit → Text → List Text
unfolding merge_deps
deps_for_distro u distro = merge_deps u.deps u.distro_deps distro

unfoldable pub runtime_deps_for_distro : PackageUnit → Text → List Text
unfolding merge_deps
runtime_deps_for_distro u distro = merge_deps u.runtime_deps u.distro_runtime_deps distro

-- `NotBuildable` of a unit that is there; a nil unit is `none`.
unfoldable pub not_buildable : Option PackageUnit → Bool
not_buildable none = false
not_buildable (some u) = not (text_eq u.unbuildable_machine [])
