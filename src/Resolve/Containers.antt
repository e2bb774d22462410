-- ===== src/Resolve/Containers.antt =====
-- internal/resolve/container.go: the container that a unit's build runs in.
use yoe.Common.{
  if◌then◌else◌, Bool, true, false, ◌||◌, Option, none, some, List, [], ◌∷◌, ◌++◌, Text, text_eq,
  has_byte,
}
use yoe.Starlark.Units.{PackageUnit}
use yoe.Starlark.Projects.{Project, lookup_unit, any_unit, resolve_provides_for_distro}
use yoe.Resolve.Runtime.{or_itself}

pub record ContainerRef : Type 0 where
  pub name : Text
  pub external : Bool
  pub unit : Option PackageUnit

-- An image with a tag or a registry path.
unfoldable pub is_external : Text → Bool
is_external ref = has_byte b':' ref || has_byte b'/' ref

-- `consumer != nil` is a consumer that is there.
unfoldable pub container_distro : Option PackageUnit → Text → Text
container_distro consumer (c ∷ s) = c ∷ s
container_distro none [] = []
container_distro (some u) [] = u.distro

unfoldable pub project_container : Project → Text → Text → ContainerRef
project_container p ref distro =
    let name = or_itself ref (resolve_provides_for_distro p ref distro) in
    record {
      name = name;
      external = false;
      unit = elim (lookup_unit p distro name) [ some u ↦ some u | none ↦ any_unit p name ];
    }

unfoldable pub resolve_container : Project → Option PackageUnit → Text → Text → ContainerRef
resolve_container p consumer [] distro = record { name = []; external = false; unit = none }
resolve_container p consumer (c ∷ ref) distro =
    if is_external (c ∷ ref)
    then record { name = c ∷ ref; external = true; unit = none }
    else project_container p (c ∷ ref) (container_distro consumer distro)

-- `add`: a reference without a name is left out.
unfoldable pub add_ref : List ContainerRef → ContainerRef → List ContainerRef
add_ref out r = if text_eq r.name [] then out else out ++ (r ∷ [])

unfoldable pub add_refs :
    Project → PackageUnit → Text → List ContainerRef → List Text → List ContainerRef
add_refs p u distro out [] = out
add_refs p u distro out (ref ∷ refs) =
    add_refs p u distro (add_ref out (resolve_container p (some u) ref distro)) refs

unfoldable pub container_refs_of : Project → PackageUnit → Text → List ContainerRef
container_refs_of p u distro = add_refs p u distro [] (u.container ∷ u.task_containers)
