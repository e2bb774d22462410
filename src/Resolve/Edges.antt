-- ===== src/Resolve/Edges.antt =====
-- internal/resolve/dag.go: the build-time dependencies of one unit.
pub mod Expansion
pub mod Resolved
pub mod Images
use yoe.Common.{
  if◌then◌else◌, length, ◌+◌, Bool, true, false, ◌||◌, Option, none, some, List, [], ◌∷◌, ◌++◌,
  Text, text_eq, Dict, get, elem, keys_of_dict,
}
use yoe.Common.Worklist.{Search, run}
use yoe.Starlark.Units.{PackageUnit, runtime_deps_for_distro}
use yoe.Starlark.Projects.{Project, resolve_provides_for_distro}
use yoe.Resolve.Runtime.{or_itself}
use yoe.Resolve.Containers.{ContainerRef, container_refs_of}

-- One round of `resolveDeps`; the keys of `seen` are the elements of `out`.
unfoldable pub add_resolved : Project → Text → List Text → Text → List Text
add_resolved p distro out d =
    let resolved = or_itself d (resolve_provides_for_distro p d distro) in
    if elem resolved out then out else out ++ (resolved ∷ [])

unfoldable pub resolve_deps_from : Project → Text → List Text → List Text → List Text
resolve_deps_from p distro out [] = out
resolve_deps_from p distro out (d ∷ ds) =
    resolve_deps_from p distro (add_resolved p distro out d) ds

unfoldable pub resolve_deps : List Text → Project → Text → List Text
resolve_deps deps p distro = resolve_deps_from p distro [] deps

abbrev pub is_some {ℓ} : {A : Type ℓ} → Option A → Bool
is_some none = false
is_some (some _) = true

-- The tests of `appendRuntimeClosureOfDeps` on a runtime dependency but that it was not seen before.
unfoldable pub build_edge : Dict PackageUnit → Text → Text → Option Text
build_edge units self r =
    if text_eq r self then none else if is_some (get r units) then some r else none

unfoldable pub unit_runtime_deps : Dict PackageUnit → Text → Text → List Text
unit_runtime_deps units distro name = elim (get name units) [
  | none ↦ []
  | some u ↦ runtime_deps_for_distro u distro
]

-- `none` where the fuel ran out. A name without a unit is seen but never queued, and is refused again
-- by its missing unit, so that the queue alone keeps what was seen.
unfoldable pub append_runtime_closure_of_deps :
    List Text → Dict PackageUnit → Text → Text → Option (List Text)
append_runtime_closure_of_deps deps units self distro =
    run (build_edge units self) (unit_runtime_deps units distro)
      (length (keys_of_dict units) + length deps) (record { queue = deps; pending = deps })

-- One round of `appendContainerDeps`.
unfoldable pub add_container : Dict PackageUnit → PackageUnit → List Text → ContainerRef → List Text
add_container units u deps ref =
    if ref.external || (text_eq ref.name u.name || elem ref.name deps)
    then deps
    else if is_some (get ref.name units)
    then deps ++ (ref.name ∷ [])
    else deps

unfoldable pub add_containers :
    Dict PackageUnit → PackageUnit → List Text → List ContainerRef → List Text
add_containers units u deps [] = deps
add_containers units u deps (ref ∷ refs) =
    add_containers units u (add_container units u deps ref) refs

unfoldable pub append_container_deps :
    List Text → Project → Dict PackageUnit → PackageUnit → Text → List Text
append_container_deps deps p units u distro =
    add_containers units u deps (container_refs_of p u distro)
