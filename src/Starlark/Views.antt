-- ===== src/Starlark/Views.antt =====
-- internal/starlark/loader.go: the views that are computed once the catalog is complete.
pub mod Cache
use yoe.Common.{none, some, List, [], ◌∷◌, ◌++◌, Text, Dict, put, keys_of_dict}
use mathlib.Core.List.{foldl}
use yoe.Starlark.Units.{PackageUnit}
use yoe.Starlark.Projects.{Project, resolve_for_distro}

unfoldable pub named_distro : Text → List Text
named_distro [] = []
named_distro (c ∷ s) = (c ∷ s) ∷ []

unfoldable pub unit_distros : Dict PackageUnit → List Text
unfolding named_distro
unit_distros [] = []
unit_distros ((_, u) ∷ rest) = named_distro u.distro ++ unit_distros rest

unfoldable pub module_distros : Dict (Dict PackageUnit) → List Text
unfolding unit_distros
module_distros [] = []
module_distros ((_, by_name) ∷ rest) = unit_distros by_name ++ module_distros rest

-- `distros` of `buildDistroViews`; a distro may stand there more than once.
unfoldable pub all_distros : Project → List Text
unfolding module_distros keys_of_dict named_distro
all_distros p =
    named_distro p.default_distro
    ++ (named_distro p.default_distro_override
        ++ (keys_of_dict p.prefer_modules ++ module_distros p.units_by_module))

-- `allNames`
unfoldable pub all_names : Dict (Dict PackageUnit) → List Text
unfolding keys_of_dict
all_names [] = []
all_names ((_, by_name) ∷ rest) = keys_of_dict by_name ++ all_names rest

unfoldable pub add_to_view : Project → Text → Dict PackageUnit → Text → Dict PackageUnit
add_to_view p distro view name = elim (resolve_for_distro p distro name) [
  | none ↦ view
  | some u ↦ put name u view
]

unfoldable pub view_of : Project → Text → Dict PackageUnit
view_of p distro = foldl (add_to_view p distro) [] (all_names p.units_by_module)

unfoldable pub build_distro_views : Project → Dict (Dict PackageUnit)
build_distro_views p =
    foldl (λ (views : Dict (Dict PackageUnit)) (distro : Text). put distro (view_of p distro) views)
      [] (all_distros p)
