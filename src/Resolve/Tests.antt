-- ===== src/Resolve/Tests.antt =====
-- Closures and dependencies in a project of two units, and the theorems at this project.
use yoe.Common.{
  ok, err, Distinct, compare_text, insert_sorted, sort_strings, ◌≡◌, refl, ◌↔◌, ◌⊎◌, true, some,
  List, [], ◌∷◌, Text, codes, text_eq, Dict, get, put, elem, keys_of_dict,
}
use yoe.Starlark.Units.{PackageUnit, empty_unit}
use yoe.Starlark.Projects.{Project}
use yoe.Resolve.Runtime.{runtime_closure}
use yoe.Resolve.Runtime.Closure.{Needs, runtime_closure-Needs}
use yoe.Resolve.Edges.{
  build_edge, unit_runtime_deps, append_runtime_closure_of_deps, append_container_deps,
  resolve_deps, add_containers, add_container, resolve_deps_from, add_resolved,
}
use yoe.Resolve.Edges.Images.{RunsIn, append_container_deps-RunsIn}
use yoe.Resolve.Edges.Expansion.{Precedes, append_runtime_closure-Precedes}
use yoe.Resolve.Dag.{
  Node, allow_missing_deps, unit_source, build_dag, distro_view, make_nodes, make_node, raw_deps,
  link, link_nodes, link_deps, set_deps, sort_rdeps, union_units, add_missing,
}
use yoe.Resolve.Sort.{
  topological_sort, sort_loop, first_sorting, in_degrees, finish_sort, release_all, release,
  SortError,
}
use yoe.Resolve.Sort.Order.{IsSorting, IsOrder}
use yoe.Resolve.Sort.Built.{build_dag-sorts, build_dag-refused}
use yoe.Resolve.Containers.{container_refs_of, add_refs, add_ref, resolve_container}
use yoe.Common.Worklist.{run, expand, visit_all, visit}
use yoe.Common.Kahn.{names_with, count_down}
use yoe.Starlark.Projects.{
  resolve_provides_for_distro, tagged_unit, tagged_provider, global_provider, lookup_unit,
  resolve_for_distro, pinned_unit, pinned_module, unit_in_module, best_unit, any_unit, candidate,
  visible_to_distro, scan_modules, scan_units, provider_of, better_unit,
}
use yoe.Starlark.Units.{deps_for_distro, merge_deps, runtime_deps_for_distro}
use yoe.Resolve.Dag.Graph.{IsOutcome, build_dag-IsOutcome}
use yoe.Resolve.Edges.Resolved.{ResolvesTo, resolve_deps-ResolvesTo}

abbrev pub alpine : Text
alpine = codes "alpine"

abbrev pub app : Text
app = codes "app"

abbrev pub musl : Text
musl = codes "musl"

abbrev units : Dict PackageUnit
units =
    (app, record empty_unit { name = app; runtime_deps = codes "libc" ∷ musl ∷ [] })
    ∷ (musl, record empty_unit { name = musl; runtime_deps = app ∷ [] })
    ∷ []

-- `libc` is provided by musl.
abbrev pub project : Project
project = record {
  units_by_module = (codes "core", units) ∷ [];
  distro_views = (alpine, units) ∷ [];
  provides_views = some [];
  default_distro = alpine;
  default_distro_override = [];
  prefer_modules = [];
  provides = (codes "libc", musl) ∷ [];
}

runtime_closure-Needs_example :
    (out : List Text) × (runtime_closure project (app ∷ []) alpine ≡ ok out)
    × ((x : Text) → elem x out ≡ true ↔ Needs project alpine (app ∷ []) x)
runtime_closure-Needs_example = runtime_closure-Needs project alpine (app ∷ []) (λ e. cc)

append_runtime_closure-Precedes_example :
    (out : List Text) × (append_runtime_closure_of_deps (app ∷ []) units (codes "image") alpine
      ≡ some out)
    × ((x : Text) → elem x out ≡ true ↔ Precedes (app ∷ []) units (codes "image") alpine x)
append_runtime_closure-Precedes_example =
    append_runtime_closure-Precedes (app ∷ []) units (codes "image") alpine

resolve_deps-ResolvesTo_example :
    Distinct (resolve_deps (codes "libc" ∷ musl ∷ []) project alpine)
    × ((x : Text)
        → elem x (resolve_deps (codes "libc" ∷ musl ∷ []) project alpine) ≡ true
          ↔ ResolvesTo project alpine (codes "libc" ∷ musl ∷ []) x)
resolve_deps-ResolvesTo_example = resolve_deps-ResolvesTo (codes "libc" ∷ musl ∷ []) project alpine

build_dag-IsOutcome_example :
    IsOutcome
      (allow_missing_deps project alpine)
      (unit_source project alpine)
      (build_dag project alpine)
build_dag-IsOutcome_example = build_dag-IsOutcome project alpine

abbrev tool : PackageUnit
tool = record empty_unit {
  name = codes "tool";
  container = musl;
  task_containers = codes "go:1" ∷ [];
}

append_container_deps-RunsIn_example :
    elem musl (append_container_deps (app ∷ []) project units tool alpine) ≡ true
    ↔ ((elem musl (app ∷ []) ≡ true) ⊎ RunsIn project units tool alpine musl)
append_container_deps-RunsIn_example =
    append_container_deps-RunsIn (app ∷ []) project units tool alpine musl

building : Unit {0}
unfolding build_dag unit_source distro_view allow_missing_deps make_nodes make_node raw_deps
    append_container_deps container_refs_of add_refs add_ref resolve_container add_containers
    add_container append_runtime_closure_of_deps run expand visit_all visit build_edge
    unit_runtime_deps resolve_deps resolve_deps_from add_resolved resolve_provides_for_distro
    tagged_unit tagged_provider global_provider lookup_unit resolve_for_distro pinned_unit
    pinned_module unit_in_module best_unit any_unit candidate visible_to_distro scan_modules
    scan_units provider_of link link_nodes link_deps set_deps sort_rdeps sort_strings compare_text
    insert_sorted topological_sort sort_loop first_sorting in_degrees names_with finish_sort
    release_all release count_down deps_for_distro merge_deps runtime_deps_for_distro get put elem
    text_eq keys_of_dict union_units add_missing better_unit
building = tt

abbrev pub view : Dict PackageUnit
view =
    (app, record empty_unit { name = app; deps = musl ∷ [] })
    ∷ (musl, record empty_unit { name = musl })
    ∷ []

abbrev pub source_project : Project
source_project = record project { distro_views = (alpine, view) ∷ [] }

abbrev pub view_nodes : Dict Node
view_nodes =
    (
      app,
      record {
        unit = record empty_unit { name = app; deps = musl ∷ [] };
        deps = musl ∷ [];
        rdeps = [];
      },
    )
    ∷ (musl, record { unit = record empty_unit { name = musl }; deps = []; rdeps = app ∷ [] })
    ∷ []

pub build_view : build_dag source_project alpine ≡ ok view_nodes
unfolding building
build_view = refl

pub sort_view : topological_sort view_nodes ≡ ok (musl ∷ app ∷ [])
unfolding building
sort_view = refl

pub view-Distinct : Distinct (keys_of_dict (unit_source source_project alpine))
unfolding building
view-Distinct = (refl, (refl, tt))

build_dag-sorts_example : IsSorting view_nodes (topological_sort view_nodes)
build_dag-sorts_example = build_dag-sorts source_project alpine view_nodes view-Distinct build_view

-- Two units that wait for each other.
abbrev loop_view : Dict PackageUnit
loop_view =
    (app, record empty_unit { name = app; deps = musl ∷ [] })
    ∷ (musl, record empty_unit { name = musl; deps = app ∷ [] })
    ∷ []

abbrev loop_project : Project
loop_project = record project { distro_views = (alpine, loop_view) ∷ [] }

abbrev loop_nodes : Dict Node
loop_nodes =
    (
      app,
      record {
        unit = record empty_unit { name = app; deps = musl ∷ [] };
        deps = musl ∷ [];
        rdeps = musl ∷ [];
      },
    )
    ∷ (
      musl,
      record {
        unit = record empty_unit { name = musl; deps = app ∷ [] };
        deps = app ∷ [];
        rdeps = app ∷ [];
      },
    )
    ∷ []

build_loop : build_dag loop_project alpine ≡ ok loop_nodes
unfolding building
build_loop = refl

sort_loops : topological_sort loop_nodes ≡ err (SortError.cycle (app ∷ musl ∷ []))
unfolding building
sort_loops = refl

loop-Distinct : Distinct (keys_of_dict (unit_source loop_project alpine))
unfolding building
loop-Distinct = (refl, (refl, tt))

build_dag-refused_example : ¬ IsOrder loop_nodes (musl ∷ app ∷ [])
build_dag-refused_example =
    build_dag-refused loop_project alpine loop_nodes loop-Distinct build_loop _ sort_loops
      (musl ∷ app ∷ [])
