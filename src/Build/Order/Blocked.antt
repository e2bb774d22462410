-- ===== src/Build/Order/Blocked.antt =====
-- What a failed unit blocks.
use yoe.Common.{◌≡◌, refl, ap, ◌∙◌, ◌↔◌, true, ◌&&◌, List, arith, Text, Dict, elem}
use yoe.Resolve.Dag.{Node}
use yoe.Resolve.Dag.Link.{has_node}
use yoe.Resolve.Sort.Round.{IsCounted}
use yoe.Resolve.Walk.Graph.{DependsOn, all_rdeps_of-DependsOn}
use yoe.Build.Order.{within, blocked_units}
use yoe.Build.Order.Keep.{within-keep, elem-keep}

-- In a graph whose reverse dependencies mirror its dependencies, the units that a failed one blocks are
-- exactly those of the build order that depend on it, however far.
pub blocked_units-DependsOn :
    (nodes : Dict Node) (failed : Text) (order : List Text)
    → IsCounted nodes
    → has_node nodes failed ≡ true
    → (x : Text)
    → elem x (blocked_units nodes failed order) ≡ true
      ↔ (elem x order ≡ true) × DependsOn nodes x failed
unfolding blocked_units
blocked_units-DependsOn nodes failed order g h x =
    let (out, r, d, exact) = all_rdeps_of-DependsOn nodes g failed h in
    let both : elem x (within out order) ≡ (elem x out && elem x order) =
      ap (elem x) (within-keep out order) ∙ elem-keep (λ z. elem z out) x order in
    rw (r, blocked_units)
      (
        λ m. (ground (arith, both, m), (exact x).0 (ground (arith, both, m))),
        λ w. let m = (exact x).1 w.1 in both ∙ rw (m, w.0) refl,
      )
