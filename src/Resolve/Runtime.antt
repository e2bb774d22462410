-- ===== src/Resolve/Runtime.antt =====
-- internal/resolve/runtime.go: the runtime closure of a list of roots.
pub mod Catalog
pub mod Closure
use yoe.Common.{
  if◌then◌else◌, length, Result, ok, err, ◌||◌, Option, none, some, List, [], ◌∷◌, ◌++◌, Text,
  text_eq,
}
use yoe.Common.Worklist.{Search, visit_all, run}
use yoe.Starlark.Units.{PackageUnit, runtime_deps_for_distro}
use yoe.Starlark.Projects.{Project, lookup_unit, resolve_provides_for_distro}
use yoe.Starlark.Views.{all_names}

-- `real != ""`: the provider, or the name itself where there is none.
abbrev pub or_itself : Text → Text → Text
or_itself name [] = name
or_itself name (c ∷ real) = c ∷ real

-- The name under which `visit` takes a dependency up, if it is a unit that the distro may see.
unfoldable pub visible_name : Project → Text → Text → Option Text
visible_name p distro raw =
    let name = or_itself raw (resolve_provides_for_distro p raw distro) in
    elim (lookup_unit p distro name) [
      | none ↦ none
      | some u ↦ if text_eq u.distro [] || text_eq u.distro distro then some name else none
    ]

unfoldable pub runtime_deps_of : Project → Text → Text → List Text
runtime_deps_of p distro name = elim (lookup_unit p distro name) [
  | none ↦ []
  | some u ↦ runtime_deps_for_distro u distro
]

-- The names that the project knows; their number is the fuel of the loop.
abbrev pub catalog : Project → List Text
catalog p = all_names p.distro_views ++ all_names p.units_by_module

pub data ClosureFault : Type 0 where
  empty_distro out_of_fuel : ClosureFault

unfoldable pub closure_from : Project → List Text → Text → Option (List Text)
closure_from p roots distro =
    run (visible_name p distro) (runtime_deps_of p distro) (length (catalog p)) (
      visit_all (visible_name p distro) (runtime_deps_of p distro)
        (record { queue = []; pending = [] }) roots)

-- `RuntimeClosure`: the panic on an empty distro is a fault of the result.
unfoldable pub runtime_closure : Project → List Text → Text → Result ClosureFault (List Text)
runtime_closure p roots [] = err empty_distro
runtime_closure p roots (c ∷ distro) = elim (closure_from p roots (c ∷ distro)) [
  | none ↦ err out_of_fuel
  | some out ↦ ok out
]
