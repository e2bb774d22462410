-- ===== src/Resolve/Walk.antt =====
-- internal/resolve/dag.go: `DepsOf` and `RdepsOf`, the walks over a finished graph.
pub mod Reach
pub mod Graph
pub mod Post
pub mod Down
pub mod Listed
use yoe.Common.{
  if◌then◌else◌, length, Result, ok, err, sort_strings, ℕ, zero, suc, true, false, Option, none,
  some, List, [], ◌∷◌, ◌++◌, Text, Dict, get, elem,
}
use yoe.Resolve.Dag.{Node, deps_of}

pub data WalkError : Type 0 where
  not_found : Text → WalkError
  -- a name without a node, where Go reads a nil pointer
  no_node : Text → WalkError
  out_of_fuel : WalkError

-- `walk` over the rest of a list of dependencies. A name enters `visited` and `result` at once, so one
-- list stands for both.
unfoldable pub walk_from :
    (Text → Option (List Text)) → ℕ → List Text → List Text → Result WalkError (List Text)
walk_from edges fuel result [] = ok result
walk_from edges zero result (dep ∷ deps) =
    let rest = walk_from edges zero result deps in if elem dep result then rest else err out_of_fuel
walk_from edges (suc fuel) result (dep ∷ deps) = elim (elem dep result) [
  | true ↦ walk_from edges (suc fuel) result deps
  | false ↦ elim (edges dep) [
    | none ↦ err (no_node dep)
    | some next ↦ elim (walk_from edges fuel (result ++ (dep ∷ [])) next) [
      | err e ↦ err e
      | ok found ↦ walk_from edges (suc fuel) found deps
    ]
  ]
]

-- The walk from a name, sorted.
unfoldable pub walk_of : (Text → Option (List Text)) → ℕ → Text → Result WalkError (List Text)
walk_of edges fuel name = elim (edges name) [
  | none ↦ err (not_found name)
  | some next ↦ elim (walk_from edges fuel [] next) [
    | err e ↦ err e
    | ok found ↦ ok (sort_strings found)
  ]
]

abbrev pub deps_at : Option Node → Option (List Text)
deps_at none = none
deps_at (some n) = some n.deps

abbrev pub rdeps_at : Option Node → Option (List Text)
rdeps_at none = none
rdeps_at (some n) = some n.rdeps

-- `DepsOf`
unfoldable pub all_deps_of : Dict Node → Text → Result WalkError (List Text)
all_deps_of nodes name = walk_of (λ x. deps_at (get x nodes)) (length nodes) name

-- `RdepsOf`
unfoldable pub all_rdeps_of : Dict Node → Text → Result WalkError (List Text)
all_rdeps_of nodes name = walk_of (λ x. rdeps_at (get x nodes)) (length nodes) name

pub record Visit : Type 0 where
  pub visited : List Text
  pub result : List Text

-- The walk of `TransitiveDeps` over a list of names; `none` where the fuel ran out. A name enters
-- `result` behind all that it leads to.
unfoldable pub post_from : (Text → List Text) → ℕ → Visit → List Text → Option Visit
post_from next fuel s [] = some s
post_from next zero s (d ∷ ds) =
    let rest = post_from next zero s ds in if elem d s.visited then rest else none
post_from next (suc fuel) s (d ∷ ds) = elim (elem d s.visited) [
  | true ↦ post_from next (suc fuel) s ds
  | false ↦
      elim (post_from next fuel (record { visited = s.visited ++ (d ∷ []); result = s.result })
        (next d)) [
          | none ↦ none
          | some t ↦
              post_from next (suc fuel)
                (record { visited = t.visited; result = t.result ++ (d ∷ []) }) ds
        ]
]

abbrev pub result_of : Option Visit → Option (List Text)
result_of none = none
result_of (some v) = some v.result

-- `TransitiveDeps`; a name without a node has no dependencies.
unfoldable pub transitive_deps : Dict Node → Text → Option (List Text)
transitive_deps nodes name = result_of (
    post_from (deps_of nodes) (length nodes) (record { visited = []; result = [] })
      (deps_of nodes name))
