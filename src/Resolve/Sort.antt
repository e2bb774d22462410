-- ===== src/Resolve/Sort.antt =====
-- internal/resolve/dag.go: `topologicalSort`. A name in the queue has a node, so that the node of
-- the name at its front is never missing.
pub mod Round
pub mod Order
pub mod Built
use yoe.Common.{
  ◌==◌, if◌then◌else◌, length, Result, ok, err, ℤ, is_zero, is_positive, pos, sort_strings, ℕ, zero,
  suc, Option, none, some, List, [], ◌∷◌, ◌++◌, Text, Dict,
}
use yoe.Common.Kahn.{degree, count_down, names_with}
use yoe.Resolve.Dag.{Node, rdeps_of}

unfoldable pub in_degrees : Dict Node → Dict ℤ
in_degrees [] = []
in_degrees ((name, node) ∷ nodes) = (name, pos (length node.deps)) ∷ in_degrees nodes

pub record Sorting : Type 0 where
  pub degrees : Dict ℤ
  pub queue : List Text

-- One reverse dependency of the name that left the queue.
unfoldable pub release : Sorting → Text → Sorting
release s rdep = record {
  degrees = count_down s.degrees rdep;
  queue =
      if is_zero (degree (count_down s.degrees rdep) rdep)
      then sort_strings (s.queue ++ (rdep ∷ []))
      else s.queue;
}

unfoldable pub release_all : Sorting → List Text → Sorting
release_all s [] = s
release_all s (rdep ∷ rdeps) = release_all (release s rdep) rdeps

-- The loop over the queue, with the order so far; `none` where the fuel ran out.
unfoldable pub sort_loop : ℕ → Dict Node → Sorting → List Text → Option (Sorting × List Text)
sort_loop zero nodes s order = elim s.queue [ [] ↦ some (s, order) | _ ∷ _ ↦ none ]
sort_loop (suc fuel) nodes s order = elim s.queue [
  | [] ↦ some (s, order)
  | name ∷ rest ↦
      sort_loop fuel nodes
        (release_all (record { degrees = s.degrees; queue = rest }) (rdeps_of nodes name))
        (order ++ (name ∷ []))
]

pub data SortError : Type 0 where
  -- the names that wait for each other
  cycle : List Text → SortError
  out_of_fuel : SortError

unfoldable pub finish_sort : Dict Node → Sorting → List Text → Result SortError (List Text)
finish_sort nodes s order =
    if length order == length nodes
    then ok order
    else err (cycle (sort_strings (names_with is_positive s.degrees)))

unfoldable pub first_sorting : Dict Node → Sorting
first_sorting nodes = record {
  degrees = in_degrees nodes;
  queue = sort_strings (names_with is_zero (in_degrees nodes));
}

unfoldable pub topological_sort : Dict Node → Result SortError (List Text)
topological_sort nodes = elim (sort_loop (length nodes) nodes (first_sorting nodes) []) [
  | none ↦ err out_of_fuel
  | some (s, order) ↦ finish_sort nodes s order
]

-- `TopologicalSort`: the order or the error is computed once and kept in the graph.
unfoldable pub sort_once :
    Dict Node
    → Option (Result SortError (List Text))
    → Result SortError (List Text) × Option (Result SortError (List Text))
sort_once nodes none = (topological_sort nodes, some (topological_sort nodes))
sort_once nodes (some r) = (r, some r)
