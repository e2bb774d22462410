-- ===== src/Common/Kahn.antt =====
-- Kahn's algorithm, as far as `topologicalSort` (internal/resolve/dag.go) and `topoOrder`
-- (internal/starlark/closure.go) share it: how many dependencies a name waits for.
pub mod Released
pub mod Ordered
pub mod Names
use yoe.Common.{
  if◌then◌else◌, ℤ, pred, pos, Bool, Option, none, some, List, [], ◌∷◌, Text, Dict, get, put,
}

-- A missing key reads as zero.
abbrev pub or_zero : Option ℤ → ℤ
or_zero none = pos 0
or_zero (some d) = d

abbrev pub degree : Dict ℤ → Text → ℤ
degree degrees x = or_zero (get x degrees)

-- `inDegree[rdep]--`
unfoldable pub count_down : Dict ℤ → Text → Dict ℤ
count_down degrees x = put x (pred (degree degrees x)) degrees

-- The names that pass a test of their degree, in the order of the map.
unfoldable pub names_with : (ℤ → Bool) → Dict ℤ → List Text
names_with test [] = []
names_with test ((x, d) ∷ degrees) =
    let rest = names_with test degrees in if test d then x ∷ rest else rest
