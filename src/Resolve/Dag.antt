-- ===== src/Resolve/Dag.antt =====
-- internal/resolve/dag.go: `BuildDAG`. The nodes are a map from a name to a node; what Go changes
-- through a pointer to a node is put back under its name.
pub mod Link
pub mod Filter
pub mod Graph
use yoe.Common.{
  if◌then◌else◌, Result, ok, err, sort_strings, Bool, true, false, Option, none, some, List, [],
  ◌∷◌, ◌++◌, Text, codes, text_eq, Dict, get, put, keys_of_dict,
}
use mathlib.Core.List.{foldl}
use Prim.Native.Nat.{Ordering}
use yoe.Starlark.Units.{PackageUnit, deps_for_distro}
use yoe.Starlark.Projects.{Project}
use yoe.Resolve.Edges.{append_container_deps, append_runtime_closure_of_deps, resolve_deps, is_some}

pub record Node : Type 0 where
  pub unit : PackageUnit
  pub deps : List Text
  pub rdeps : List Text

pub data DagError : Type 0 where
  -- a unit, and what it depends on that does not exist
  missing : Text → Text → DagError
  out_of_fuel : DagError

-- The union of the modules' units: the first unit of a name stays.
unfoldable pub add_missing : Dict PackageUnit → Text × PackageUnit → Dict PackageUnit
add_missing units (name, u) = elim (get name units) [ none ↦ put name u units | some _ ↦ units ]

unfoldable pub union_units : Dict PackageUnit → Dict (Dict PackageUnit) → Dict PackageUnit
union_units units [] = units
union_units units ((_, by_name) ∷ ms) = union_units (foldl add_missing units by_name) ms

-- The view of a distro that the project has one for.
unfoldable pub distro_view : Project → Text → Option (Dict PackageUnit)
distro_view p [] = none
distro_view p (c ∷ distro) = get (c ∷ distro) p.distro_views

-- `units`
unfoldable pub unit_source : Project → Text → Dict PackageUnit
unit_source p distro = elim (distro_view p distro) [
  | none ↦ union_units [] p.units_by_module
  | some view ↦ view
]

-- `allowMissingDeps`
unfoldable pub allow_missing_deps : Project → Text → Bool
allow_missing_deps p distro = is_some (distro_view p distro)

-- `resolveDistro`
abbrev pub resolve_distro : Text → PackageUnit → Text
resolve_distro [] u = u.distro
resolve_distro (c ∷ s) u = c ∷ s

-- The dependencies of a unit before the names are resolved.
unfoldable pub raw_deps :
    Project → Dict PackageUnit → Text → Text → PackageUnit → Option (List Text)
raw_deps p units distro name u =
    if text_eq u.class (codes "image")
    then some (append_container_deps (deps_for_distro u distro ++ u.artifacts) p units u distro)
    else append_runtime_closure_of_deps
        (append_container_deps (deps_for_distro u distro) p units u distro) units name distro

unfoldable pub make_node : Project → Dict PackageUnit → Text → Text → PackageUnit → Option Node
make_node p units distro name u = elim (raw_deps p units distro name u) [
  | none ↦ none
  | some deps ↦ some (record { unit = u; deps = resolve_deps deps p distro; rdeps = [] })
]

unfoldable pub make_nodes :
    Project → Dict PackageUnit → Text → Dict PackageUnit → Option (Dict Node)
make_nodes p units distro [] = some []
make_nodes p units distro ((name, u) ∷ rest) =
    elim (make_node p units (resolve_distro distro u) name u) [
      | none ↦ none
      | some node ↦ elim (make_nodes p units distro rest) [
        | none ↦ none
        | some nodes ↦ some ((name, node) ∷ nodes)
      ]
    ]

abbrev add_rdep : Node → Text → Node
add_rdep target name = record target { rdeps = target.rdeps ++ (name ∷ []) }

-- The loop over the dependencies of one node, which leaves the nodes and `filtered`.
unfoldable pub link_deps :
    Bool → Text → Dict Node → List Text → List Text → Result DagError (Dict Node × List Text)
link_deps allow name nodes filtered [] = ok (nodes, filtered)
link_deps allow name nodes filtered (dep ∷ deps) = elim (get dep nodes) [
  | none ↦ elim allow [
    | true ↦ link_deps allow name nodes filtered deps
    | false ↦ err (missing name dep)
  ]
  | some target ↦
      link_deps allow name (put dep (add_rdep target name) nodes) (filtered ++ (dep ∷ [])) deps
]

-- `node.Deps = filtered`
unfoldable pub set_deps : Text → List Text → Dict Node → Dict Node
set_deps name filtered nodes = elim (get name nodes) [
  | none ↦ nodes
  | some node ↦ put name (record node { deps = filtered }) nodes
]

abbrev pub node_deps : Option Node → List Text
node_deps none = []
node_deps (some node) = node.deps

abbrev pub node_rdeps : Option Node → List Text
node_rdeps none = []
node_rdeps (some node) = node.rdeps

-- The dependencies of a name, none where there is no node.
abbrev pub deps_of : Dict Node → Text → List Text
deps_of nodes name = node_deps (get name nodes)

abbrev pub rdeps_of : Dict Node → Text → List Text
rdeps_of nodes name = node_rdeps (get name nodes)

-- The loop over the nodes, by their names.
unfoldable pub link_nodes : Bool → Dict Node → List Text → Result DagError (Dict Node)
link_nodes allow nodes [] = ok nodes
link_nodes allow nodes (name ∷ names) = elim (link_deps allow name nodes [] (deps_of nodes name)) [
  | err e ↦ err e
  | ok (linked, filtered) ↦ link_nodes allow (set_deps name filtered linked) names
]

abbrev sort_node : Node → Node
sort_node node = record node { rdeps = sort_strings node.rdeps }

unfoldable pub sort_rdeps : Dict Node → Dict Node
sort_rdeps [] = []
sort_rdeps ((name, node) ∷ nodes) = (name, sort_node node) ∷ sort_rdeps nodes

unfoldable pub link : Bool → Dict Node → Result DagError (Dict Node)
link allow nodes = elim (link_nodes allow nodes (keys_of_dict nodes)) [
  | err e ↦ err e
  | ok linked ↦ ok (sort_rdeps linked)
]

unfoldable pub build_dag : Project → Text → Result DagError (Dict Node)
build_dag p distro =
    let units = unit_source p distro in
    elim (make_nodes p units distro units) [
      | none ↦ err out_of_fuel
      | some nodes ↦ link (allow_missing_deps p distro) nodes
    ]
