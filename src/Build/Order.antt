-- ===== src/Build/Order.antt =====
-- internal/build/executor.go: the part of the build order that a build takes up.
pub mod Keep
pub mod Chosen
pub mod Outcome
pub mod Blocked
use yoe.Common.{
  if◌then◌else◌, Result, ok, err, Option, none, some, List, [], ◌∷◌, ◌++◌, Text, Dict, get, elem,
}
use yoe.Starlark.Units.{not_buildable}
use yoe.Starlark.Projects.{Project, lookup_unit}
use yoe.Resolve.Dag.{Node, DagError, build_dag}
use yoe.Resolve.Sort.{SortError, topological_sort}
use yoe.Resolve.Walk.{WalkError, not_found, all_deps_of, all_rdeps_of}

-- The names that are in a set, in the order of the list.
unfoldable pub within : List Text → List Text → List Text
within chosen [] = []
within chosen (x ∷ xs) = let rest = within chosen xs in if elem x chosen then x ∷ rest else rest

-- The loop that fills `needed`.
unfoldable pub needed_from : Dict Node → List Text → List Text → Result WalkError (List Text)
needed_from nodes needed [] = ok needed
needed_from nodes needed (name ∷ names) = elim (get name nodes) [
  | none ↦ err (not_found name)
  | some _ ↦ elim (all_deps_of nodes name) [
    | err e ↦ err e
    | ok deps ↦ needed_from nodes (needed ++ (name ∷ deps)) names
  ]
]

unfoldable pub filter_build_order : Dict Node → List Text → List Text → Result WalkError (List Text)
filter_build_order nodes full_order names = elim (needed_from nodes [] names) [
  | err e ↦ err e
  | ok needed ↦ ok (within needed full_order)
]

unfoldable pub skip_unbuildable : Project → Text → List Text → List Text
skip_unbuildable p distro [] = []
skip_unbuildable p distro (name ∷ order) =
    let rest = skip_unbuildable p distro order in
    if not_buildable (lookup_unit p distro name) then rest else name ∷ rest

-- `blockedUnits`: nothing where the walk fails.
unfoldable pub blocked_units : Dict Node → Text → List Text → List Text
blocked_units nodes failed order = elim (all_rdeps_of nodes failed) [
  | err _ ↦ []
  | ok rdeps ↦ within rdeps order
]

-- The first named target that the machine cannot boot, which is refused.
unfoldable pub first_unbuildable : Project → Text → List Text → Option Text
first_unbuildable p distro [] = none
first_unbuildable p distro (name ∷ names) =
    let rest = first_unbuildable p distro names in
    if not_buildable (lookup_unit p distro name) then some name else rest

-- All units, or the named ones and what they depend on.
unfoldable pub chosen_order : Dict Node → List Text → List Text → Result WalkError (List Text)
chosen_order nodes order [] = ok order
chosen_order nodes order (name ∷ names) = filter_build_order nodes order (name ∷ names)

pub data OrderError : Type 0 where
  dag_error : DagError → OrderError
  sort_error : SortError → OrderError
  unbuildable : Text → OrderError
  walk_error : WalkError → OrderError

-- The graph and the order of the units to build, as `BuildUnits` makes them before it plans.
unfoldable pub build_order : Project → Text → List Text → Result OrderError (Dict Node × List Text)
build_order p distro names = elim (build_dag p distro) [
  | err e ↦ err (dag_error e)
  | ok nodes ↦ elim (topological_sort nodes) [
    | err e ↦ err (sort_error e)
    | ok order ↦ elim (first_unbuildable p distro names) [
      | some name ↦ err (unbuildable name)
      | none ↦ elim (chosen_order nodes order names) [
        | err e ↦ err (walk_error e)
        | ok chosen ↦ ok (nodes, skip_unbuildable p distro chosen)
      ]
    ]
  ]
]
