-- ===== src/Resolve/Sort/Built.antt =====
-- The graph that `BuildDAG` returns is one that `topologicalSort` is made for.
use yoe.Common.{
  if◌then◌else◌, Option-cases, some_inj, Result, Result-cases, ok_inj, ok, err, Distinct, count,
  count-of_Distinct, ◌≡◌, refl, sym, ap, ◌∙◌, subst, inl, inr, Bool, true, false, some, List, [],
  ◌∷◌, ◌++◌, arith, Text, keys-put, Dict, get, put, elem, keys_of_dict,
}
use yoe.Starlark.Units.{PackageUnit}
use yoe.Starlark.Projects.{Project}
use yoe.Resolve.Dag.{
  Node, DagError, unit_source, allow_missing_deps, make_node, make_nodes, resolve_distro, deps_of,
  rdeps_of, link_deps, set_deps, link_nodes, sort_rdeps, link, build_dag,
}
use yoe.Resolve.Dag.Link.{has_node}
use yoe.Resolve.Dag.Filter.{IsFiltered, Filters, link_nodes-Filters}
use yoe.Resolve.Dag.Graph.{
  make_nodes-IsFresh, elem-keys_of_dict, deps-sort_rdeps, rdeps-sort_rdeps, IsGraph, IsOutcome,
  build_dag-IsOutcome,
}
use yoe.Resolve.Sort.{SortError, cycle, out_of_fuel, topological_sort}
use yoe.Resolve.Sort.Round.{IsCounted}
use yoe.Resolve.Sort.Order.{IsOrder, IsSorting, topological_sort-IsSorting, IsCycle-no-IsOrder}

-- Linking keeps the names of the nodes, in their order.
abbrev Keeps : Dict Node → Result DagError (Dict Node × List Text) → Type 0
Keeps nodes (err _) = Unit
Keeps nodes (ok (after, _)) = keys_of_dict after ≡ keys_of_dict nodes

Keeps-from :
    (before nodes : Dict Node) (r : Result DagError (Dict Node × List Text))
    → keys_of_dict nodes ≡ keys_of_dict before
    → Keeps nodes r
    → Keeps before r
Keeps-from before nodes (err _) e k = tt
Keeps-from before nodes (ok (after, _)) e k = k ∙ e

known_key :
    (nodes : Dict Node) (x : Text) (n : Node)
    → get x nodes ≡ some n
    → elem x (keys_of_dict nodes) ≡ true
known_key nodes x n e = rw (elem-keys_of_dict x nodes, e) refl

link_deps-Keeps :
    (allow : Bool) (name : Text) (ds : List Text) (nodes : Dict Node) (kept : List Text)
    → Keeps nodes (link_deps allow name nodes kept ds)
unfolding link_deps
link_deps-Keeps allow name [] nodes kept = refl
link_deps-Keeps allow name (d ∷ ds) nodes kept = elim (Option-cases (get d nodes)) [
  | inl e ↦ rw (e, link_deps) (skip allow (link_deps-Keeps allow name ds nodes kept))
  | inr (target, e) ↦
      let added = put d (record target { rdeps = target.rdeps ++ (name ∷ []) }) nodes in
      rw (e, link_deps)
        (Keeps-from nodes added _ (keys-put d _ nodes (known_key nodes d target e))
          (link_deps-Keeps allow name ds added (kept ++ (d ∷ []))))
]
  where
    skip :
        (b : Bool)
        → Keeps nodes (link_deps b name nodes kept ds)
        → Keeps nodes (elim b as (λ _. Result DagError (Dict Node × List Text)) [
          | true ↦ link_deps b name nodes kept ds
          | false ↦ err (DagError.missing name d)
        ])
    skip true k = k
    skip false k = tt

keys-set_deps :
    (name : Text) (filtered : List Text) (nodes : Dict Node)
    → keys_of_dict (set_deps name filtered nodes) ≡ keys_of_dict nodes
unfolding set_deps
keys-set_deps name filtered nodes = elim (Option-cases (get name nodes)) [
  | inl e ↦ rw (e, set_deps) refl
  | inr (n, e) ↦ rw (e, set_deps) (keys-put name _ nodes (known_key nodes name n e))
]

keys-link_nodes :
    (allow : Bool) (names : List Text) (nodes after : Dict Node)
    → link_nodes allow nodes names ≡ ok after
    → keys_of_dict after ≡ keys_of_dict nodes
unfolding link_nodes
keys-link_nodes allow [] nodes after h = ap keys_of_dict (sym (ok_inj h))
keys-link_nodes allow (name ∷ names) nodes after h =
    elim (Result-cases (link_deps allow name nodes [] (deps_of nodes name))) [
      | inr (e, r) ↦ cc (rw (r, link_nodes) at h)
      | inl ((linked, filtered), r) ↦
          keys-link_nodes allow names (set_deps name filtered linked) after
            (rw (r, link_nodes) at h)
          ∙ keys-set_deps name filtered linked
          ∙ subst (Keeps nodes) r (link_deps-Keeps allow name (deps_of nodes name) nodes [])
    ]

keys-sort_rdeps : (nodes : Dict Node) → keys_of_dict (sort_rdeps nodes) ≡ keys_of_dict nodes
unfolding sort_rdeps keys_of_dict
keys-sort_rdeps [] = refl
keys-sort_rdeps ((j, n) ∷ nodes) = ap (λ l. j ∷ l) (keys-sort_rdeps nodes)

keys-make_nodes :
    (p : Project) (units : Dict PackageUnit) (distro : Text) (rest : Dict PackageUnit)
    (nodes : Dict Node)
    → make_nodes p units distro rest ≡ some nodes
    → keys_of_dict nodes ≡ keys_of_dict rest
unfolding make_nodes keys_of_dict
keys-make_nodes p units distro [] nodes h = ap keys_of_dict (sym (some_inj h))
keys-make_nodes p units distro ((name, u) ∷ rest) nodes h =
    elim (Option-cases (make_node p units (resolve_distro distro u) name u)) [
      | inl e ↦ cc (rw (e, make_nodes) at h)
      | inr (n, e) ↦ elim (Option-cases (make_nodes p units distro rest)) [
        | inl f ↦ cc (rw (e, make_nodes, f) at h)
        | inr (ns, f) ↦
            let same : (name, n) ∷ ns ≡ nodes = some_inj (rw (e, make_nodes, f) at h) in
            ap keys_of_dict (sym same)
            ∙ ap (λ l. name ∷ l) (keys-make_nodes p units distro rest ns f)
      ]
    ]

module _ (nodes linked : Dict Node) (none_yet : (x : Text) → rdeps_of nodes x ≡ [])
    (distinct : Distinct (keys_of_dict nodes))
    (f : IsFiltered (keys_of_dict nodes) nodes linked) where
  mirrored_counts :
      (x y : Text)
      → count x (rdeps_of (sort_rdeps linked) y) ≡ count y (deps_of (sort_rdeps linked) x)
  unfolding count
  mirrored_counts x y =
      let d = if has_node nodes y then count y (deps_of nodes x) else 0 in
      let none_count : count x (rdeps_of nodes y) ≡ 0 = rw (none_yet y) refl in
      rdeps-sort_rdeps y linked x
      ∙ (f.rdeps_more x y
          ∙ (rw
              (
                none_count,
                count-of_Distinct x (keys_of_dict nodes) distinct,
                deps-sort_rdeps x linked,
                f.deps_kept x y,
              )
              (elim (Option-cases (get x nodes)) [
                | inl e ↦ rw (elem-keys_of_dict x nodes, e) (ground arith)
                | inr (n, e) ↦ rw (known_key nodes x n e) (ground arith)
              ])))

-- The graph that `BuildDAG` returns has every reverse dependency as often as the dependency, where no
-- name stands twice among its units.
pub build_dag-IsCounted :
    (p : Project) (distro : Text) (nodes : Dict Node)
    → Distinct (keys_of_dict (unit_source p distro))
    → build_dag p distro ≡ ok nodes
    → IsCounted nodes
unfolding build_dag link
build_dag-IsCounted p distro nodes d h =
    let units = unit_source p distro in
    let (fresh, made, i) = make_nodes-IsFresh p units distro units in
    let allow = allow_missing_deps p distro in
    let names = keys_of_dict fresh in
    let same_keys = keys-make_nodes p units distro units fresh made in
    let distinct : Distinct names = rw same_keys d in
    elim (Result-cases (link_nodes allow fresh names)) [
      | inr (e, r) ↦ cc (rw (r, link) at (rw (made, build_dag) at h))
      | inl (linked, r) ↦
          let done : sort_rdeps linked ≡ nodes =
            ok_inj (rw (r, link) at (rw (made, build_dag) at h)) in
          let f : IsFiltered names fresh linked =
            subst (Filters allow names fresh) r (link_nodes-Filters allow fresh names) in
          let keys = keys-sort_rdeps linked ∙ keys-link_nodes allow names fresh linked r in
          let graph : IsGraph units nodes =
            subst (IsOutcome allow units) h (build_dag-IsOutcome p distro) in
          record {
            distinct = subst (λ ns. Distinct (keys_of_dict ns)) done (rw keys distinct);
            closed = graph.closed;
            mirrored =
                subst
                  (λ (ns : Dict Node).
                    (x y : Text) → count x (rdeps_of ns y) ≡ count y (deps_of ns x))
                  done (mirrored_counts fresh linked i.no_rdeps distinct f);
          }
    ]

-- Where `BuildDAG` returns a graph, and no name stands twice among its units, `topologicalSort` ends on
-- that graph. It returns a build order, in which every unit stands once and behind all that it depends
-- on, or an error with the names of units each of which depends on another one of them.
pub build_dag-sorts :
    (p : Project) (distro : Text) (nodes : Dict Node)
    → Distinct (keys_of_dict (unit_source p distro))
    → build_dag p distro ≡ ok nodes
    → IsSorting nodes (topological_sort nodes)
build_dag-sorts p distro nodes d h =
    topological_sort-IsSorting nodes (build_dag-IsCounted p distro nodes d h)

-- Where `topologicalSort` returns an error for a graph that `BuildDAG` returned from units of which no
-- two have one name, no list of names is a build order of the graph.
pub build_dag-refused :
    (p : Project) (distro : Text) (nodes : Dict Node)
    → Distinct (keys_of_dict (unit_source p distro))
    → build_dag p distro ≡ ok nodes
    → (e : SortError) → topological_sort nodes ≡ err e
    → (order : List Text) → ¬ IsOrder nodes order
build_dag-refused p distro nodes d h (cycle names) failed order =
    IsCycle-no-IsOrder nodes names order
      (subst (IsSorting nodes) failed (build_dag-sorts p distro nodes d h))
build_dag-refused p distro nodes d h out_of_fuel failed order =
    absurd (subst (IsSorting nodes) failed (build_dag-sorts p distro nodes d h))
