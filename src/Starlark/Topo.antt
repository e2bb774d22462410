-- ===== src/Starlark/Topo.antt =====
-- internal/starlark/closure.go: `topoOrder`, which orders the units of a closure in waves.
pub mod Edges
pub mod Waves
pub mod Order
use yoe.Common.{
  ltb, if◌then◌else◌, length, ℤ, is_zero, next_int, sort_strings, ℕ, zero, suc, Bool, true, false,
  not, ◌&&◌, Option, none, some, List, [], ◌∷◌, ◌++◌, Text, text_eq, Dict, get, put, elem,
  keys_of_dict,
}
use yoe.Common.Kahn.{degree, or_zero, count_down, names_with}

-- `indeg` and `rdeps`
pub record Graph : Type 0 where
  pub indeg : Dict ℤ
  pub rdeps : Dict (List Text)

-- A missing key reads as the empty list.
abbrev pub or_empty : Option (List Text) → List Text
or_empty none = []
or_empty (some xs) = xs

abbrev pub list_at : Dict (List Text) → Text → List Text
list_at m x = or_empty (get x m)

-- An edge that counts: to another unit of the closure.
abbrev pub is_edge : Dict (List Text) → Text → Text → Bool
is_edge deps name d = not (text_eq d name) && elem d (keys_of_dict deps)

unfoldable pub add_edge : Text → Text → Graph → Graph
add_edge name d g = record {
  indeg = put name (next_int (degree g.indeg name)) g.indeg;
  rdeps = put d (list_at g.rdeps d ++ (name ∷ [])) g.rdeps;
}

-- The loop over the dependencies of one unit.
unfoldable pub count_edges : Dict (List Text) → Text → List Text → Graph → List Text → Graph
count_edges deps name counted g [] = g
count_edges deps name counted g (d ∷ ds) = elim (is_edge deps name d && not (elem d counted)) [
  | true ↦ count_edges deps name (d ∷ counted) (add_edge name d g) ds
  | false ↦ count_edges deps name counted g ds
]

unfoldable pub count_all : Dict (List Text) → Graph → Dict (List Text) → Graph
count_all deps g [] = g
count_all deps g ((name, ds) ∷ rest) =
    count_all deps
      (count_edges deps name [] (record g { indeg = put name (degree g.indeg name) g.indeg }) ds)
      rest

pub record Wave : Type 0 where
  pub indeg : Dict ℤ
  pub next : List Text

unfoldable pub free_one : Wave → Text → Wave
free_one w rd = record {
  indeg = count_down w.indeg rd;
  next = if is_zero (degree (count_down w.indeg rd) rd) then w.next ++ (rd ∷ []) else w.next;
}

unfoldable pub free_all : Wave → List Text → Wave
free_all w [] = w
free_all w (rd ∷ rds) = free_all (free_one w rd) rds

unfoldable pub free_wave : Dict (List Text) → Wave → List Text → Wave
free_wave rdeps w [] = w
free_wave rdeps w (name ∷ ready) = free_wave rdeps (free_all w (list_at rdeps name)) ready

-- The loop over the waves; `none` where the fuel ran out.
unfoldable pub emit_waves :
    ℕ → Dict (List Text) → Dict ℤ → List Text → List Text → Option (List Text)
emit_waves zero rdeps indeg ready ordered = elim ready [ [] ↦ some ordered | _ ∷ _ ↦ none ]
emit_waves (suc fuel) rdeps indeg ready ordered = elim ready [
  | [] ↦ some ordered
  | name ∷ names ↦
      let w = free_wave rdeps (record { indeg = indeg; next = [] }) (name ∷ names) in
      emit_waves fuel rdeps w.indeg (sort_strings w.next) (ordered ++ (name ∷ names))
]

-- The names that were not emitted.
unfoldable pub stuck_names : List Text → List Text → List Text
stuck_names emitted [] = []
stuck_names emitted (name ∷ names) =
    let rest = stuck_names emitted names in if elem name emitted then rest else name ∷ rest

unfoldable pub append_stuck : Dict (List Text) → List Text → List Text
append_stuck deps ordered =
    if ltb (length ordered) (length deps)
    then ordered ++ sort_strings (stuck_names ordered (keys_of_dict deps))
    else ordered

unfoldable pub topo_order : Dict (List Text) → Option (List Text)
topo_order deps =
    let g = count_all deps (record { indeg = []; rdeps = [] }) deps in
    elim (emit_waves (length deps) g.rdeps g.indeg (sort_strings (names_with is_zero g.indeg)) []) [
      | none ↦ none
      | some ordered ↦ some (append_stuck deps ordered)
    ]
