-- ===== src/Starlark/Provided.antt =====
-- internal/starlark/loader.go: the index of what the tagged units provide.
pub mod Scan
pub mod Cache
use yoe.Common.{none, some, List, [], ◌∷◌, Text, Dict, get, put}
use mathlib.Core.List.{foldl}
use yoe.Starlark.Units.{PackageUnit}
use yoe.Starlark.Projects.{Project}

-- One name that a unit provides: the first unit that provides it stays.
unfoldable pub add_provided : Text → Dict Text → Text → Dict Text
add_provided name view [] = view
add_provided name view (c ∷ v) = elim (get (c ∷ v) view) [
  | none ↦ put (c ∷ v) name view
  | some _ ↦ view
]

-- `views[u.Distro]`, made if it is not there.
unfoldable pub view_or_new : Text → Dict (Dict Text) → Dict Text
view_or_new distro views = elim (get distro views) [ none ↦ [] | some view ↦ view ]

-- The names that a unit of this name and distro provides.
unfoldable pub add_tagged : Dict (Dict Text) → Text → Text → List Text → Dict (Dict Text)
add_tagged views name [] provided = views
add_tagged views name (c ∷ d) [] = views
add_tagged views name (c ∷ d) (v ∷ vs) =
    put (c ∷ d) (foldl (add_provided name) (view_or_new (c ∷ d) views) (v ∷ vs)) views

unfoldable pub add_provider : Dict (Dict Text) → PackageUnit → Dict (Dict Text)
unfolding add_tagged
add_provider views u = add_tagged views u.name u.distro u.provides

unfoldable pub add_units : Dict (Dict Text) → Dict PackageUnit → Dict (Dict Text)
add_units views [] = views
add_units views ((_, u) ∷ units) = add_units (add_provider views u) units

unfoldable pub add_modules : Dict (Dict Text) → Dict (Dict PackageUnit) → Dict (Dict Text)
add_modules views [] = views
add_modules views ((_, by_name) ∷ ms) = add_modules (add_units views by_name) ms

-- `ProvidesViews` is made by one walk over Go's maps and the scan is another one, in another order.
unfoldable pub build_provides_views : Project → Dict (Dict Text)
build_provides_views p = add_modules [] p.units_by_module
