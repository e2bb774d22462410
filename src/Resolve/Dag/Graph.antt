-- ===== src/Resolve/Dag/Graph.antt =====
-- The graph that `BuildDAG` returns.
use yoe.Common.{
  if◌then◌else◌, Bool-cases, Option-cases, Result, ok, err, count, elem-count, times_positive,
  count-sort_strings, ◌≡◌, refl, sym, ◌∙◌, inl, inr, Bool, true, false, some, List, [], ◌∷◌, ◌++◌,
  arith, Text, codes, text_eq, Dict, get, elem, keys_of_dict,
}
use yoe.Starlark.Units.{PackageUnit, deps_for_distro}
use yoe.Starlark.Projects.{Project}
use yoe.Resolve.Edges.{is_some, resolve_deps, append_container_deps}
use yoe.Resolve.Edges.Expansion.{append_runtime_closure-Precedes}
use yoe.Resolve.Dag.{
  Node, DagError, unit_source, allow_missing_deps, resolve_distro, raw_deps, make_node, make_nodes,
  deps_of, rdeps_of, link_nodes, sort_rdeps, link, build_dag,
}
use yoe.Resolve.Dag.Link.{has_node}
use yoe.Resolve.Dag.Filter.{IsFiltered, Filters, link_nodes-Filters}

-- Sorting changes nothing but the order of the reverse dependencies.
module _ (x : Text) where
  has-sort_rdeps : (nodes : Dict Node) → has_node (sort_rdeps nodes) x ≡ has_node nodes x
  unfolding sort_rdeps get
  has-sort_rdeps [] = refl
  has-sort_rdeps ((j, n) ∷ nodes) = elim (Bool-cases (text_eq j x)) [
    | inl e ↦ rw e refl
    | inr e ↦ rw e (has-sort_rdeps nodes)
  ]

  pub deps-sort_rdeps : (nodes : Dict Node) → deps_of (sort_rdeps nodes) x ≡ deps_of nodes x
  unfolding sort_rdeps get
  deps-sort_rdeps [] = refl
  deps-sort_rdeps ((j, n) ∷ nodes) = elim (Bool-cases (text_eq j x)) [
    | inl e ↦ rw e refl
    | inr e ↦ rw e (deps-sort_rdeps nodes)
  ]

  pub rdeps-sort_rdeps :
      (nodes : Dict Node) (k : Text)
      → count k (rdeps_of (sort_rdeps nodes) x) ≡ count k (rdeps_of nodes x)
  unfolding sort_rdeps get
  rdeps-sort_rdeps [] k = refl
  rdeps-sort_rdeps ((j, n) ∷ nodes) k = elim (Bool-cases (text_eq j x)) [
    | inl e ↦ rw e (count-sort_strings k n.rdeps)
    | inr e ↦ rw e (rdeps-sort_rdeps nodes k)
  ]

  pub elem-keys_of_dict : (nodes : Dict Node) → elem x (keys_of_dict nodes) ≡ has_node nodes x
  unfolding keys_of_dict get elem
  elem-keys_of_dict [] = refl
  elem-keys_of_dict ((j, n) ∷ nodes) = elim (Bool-cases (text_eq j x)) [
    | inl e ↦ rw e refl
    | inr e ↦ rw e (elem-keys_of_dict nodes)
  ]

module _ (p : Project) (units : Dict PackageUnit) (distro : Text) where
  -- A node for every unit, and no reverse dependency yet.
  pub record IsFresh (rest : Dict PackageUnit) (nodes : Dict Node) : Type 0 where
    pub nodes_same : (x : Text) → has_node nodes x ≡ is_some (get x rest)
    pub no_rdeps : (x : Text) → rdeps_of nodes x ≡ []

  raw_deps_ends :
      (d name : Text) (u : PackageUnit) → (out : List Text) × (raw_deps p units d name u ≡ some out)
  unfolding raw_deps
  raw_deps_ends d name u =
      let (out, ends, _) =
        append_runtime_closure-Precedes (append_container_deps (deps_for_distro u d) p units u d)
          units name d in
      elim (Bool-cases (text_eq u.class (codes "image"))) [
        | inl e ↦
            (append_container_deps (deps_for_distro u d ++ u.artifacts) p units u d, rw e refl)
        | inr e ↦ (out, rw e ends)
      ]

  pub make_nodes-IsFresh :
      (rest : Dict PackageUnit)
      → (nodes : Dict Node) × (make_nodes p units distro rest ≡ some nodes) × IsFresh rest nodes
  unfolding make_nodes make_node get
  make_nodes-IsFresh [] = ([], refl, record { nodes_same = λ x. refl; no_rdeps = λ x. refl })
  make_nodes-IsFresh ((name, u) ∷ rest) =
      let (nodes, made, fresh) = make_nodes-IsFresh rest in
      let (out, ends) = raw_deps_ends (resolve_distro distro u) name u in
      let node : Node = record {
        unit = u;
        deps = resolve_deps out p (resolve_distro distro u);
        rdeps = [];
      } in
      (
        (name, node) ∷ nodes,
        rw (ends, make_node, make_nodes) (rw (made, make_nodes) refl),
        record {
          nodes_same = λ x. elim (Bool-cases (text_eq name x)) [
            | inl e ↦ rw e refl
            | inr e ↦ rw e (fresh.nodes_same x)
          ];
          no_rdeps = λ x. elim (Bool-cases (text_eq name x)) [
            | inl e ↦ rw e refl
            | inr e ↦ rw e (fresh.no_rdeps x)
          ];
        },
      )

-- A graph over the units: its nodes are the units, every dependency is a node, and the reverse
-- dependencies are the dependencies read backwards.
pub record IsGraph (units : Dict PackageUnit) (nodes : Dict Node) : Type 0 where
  pub nodes_are_units : (x : Text) → has_node nodes x ≡ is_some (get x units)
  pub closed : (x y : Text) → elem y (deps_of nodes x) ≡ true → has_node nodes y ≡ true
  pub mirrored : (x y : Text) → elem x (rdeps_of nodes y) ≡ elem y (deps_of nodes x)

-- What `BuildDAG` returns: a graph over the units, or an error that names a dependency without a unit.
abbrev pub IsOutcome : Bool → Dict PackageUnit → Result DagError (Dict Node) → Type 0
IsOutcome allow units (ok nodes) = IsGraph units nodes
IsOutcome allow units (err (DagError.missing _ dep)) =
    (allow ≡ false) × (is_some (get dep units) ≡ false)
IsOutcome allow units (err DagError.out_of_fuel) = ⊥

module _ (allow : Bool) (units : Dict PackageUnit) (nodes : Dict Node)
    (same : (x : Text) → has_node nodes x ≡ is_some (get x units))
    (none_yet : (x : Text) → rdeps_of nodes x ≡ []) where
  IsFiltered-IsGraph :
      (linked : Dict Node)
      → IsFiltered (keys_of_dict nodes) nodes linked
      → IsGraph units (sort_rdeps linked)
  unfolding elem count
  IsFiltered-IsGraph linked f = record {
    nodes_are_units = λ x. has-sort_rdeps x linked ∙ (f.nodes_same x ∙ same x);
    closed = λ x y m.
        has-sort_rdeps y linked
        ∙ (f.nodes_same y ∙ target x y (rw (deps-sort_rdeps x linked) at m));
    mirrored = λ x y. rw (deps-sort_rdeps x linked) (
        ground (
          arith,
          rdeps-sort_rdeps y linked x,
          elem-count x (rdeps_of (sort_rdeps linked) y),
          elem-count x (rdeps_of linked y),
          mirror x y,
        ));
  }
    where
      listed : (x y : Text) → elem y (deps_of nodes x) ≡ true → elem x (keys_of_dict nodes) ≡ true
      listed x y m = elim (Option-cases (get x nodes)) [
        | inl e ↦ cc (rw e at m)
        | inr (n, e) ↦ rw (elem-keys_of_dict x nodes, e) refl
      ]

      target : (x y : Text) → elem y (deps_of linked x) ≡ true → has_node nodes y ≡ true
      target x y m = ground (
        arith,
        f.deps_kept x y,
        elem-count y (deps_of linked x),
        elem-count y (deps_of nodes x),
        listed x y,
      )

      none_count : (x y : Text) → count x (rdeps_of nodes y) ≡ 0
      none_count x y = rw (none_yet y) refl

      mirror : (x y : Text) → elem x (rdeps_of linked y) ≡ elem y (deps_of linked x)
      mirror x y =
          let d = if has_node nodes y then count y (deps_of nodes x) else 0 in
          ground (
            arith,
            f.rdeps_more x y,
            f.deps_kept x y,
            none_count x y,
            times_positive (count x (keys_of_dict nodes)) d,
            elem-count x (keys_of_dict nodes),
            elem-count x (rdeps_of linked y),
            elem-count y (deps_of linked x),
            elem-count y (deps_of nodes x),
            listed x y,
          )

  link-IsOutcome : IsOutcome allow units (link allow nodes)
  unfolding link
  link-IsOutcome =
      go (link_nodes allow nodes (keys_of_dict nodes))
        (link_nodes-Filters allow nodes (keys_of_dict nodes))
    where
      go :
          (r : Result DagError (Dict Node))
          → Filters allow (keys_of_dict nodes) nodes r
          → IsOutcome allow units (elim r as (λ _. Result DagError (Dict Node)) [
            | err e ↦ err e
            | ok linked ↦ ok (sort_rdeps linked)
          ])
      go (err (DagError.missing x dep)) f = (f.0, sym (same dep) ∙ f.1)
      go (err DagError.out_of_fuel) f = f
      go (ok linked) f = IsFiltered-IsGraph linked f

-- `BuildDAG` always ends. It returns a graph with a node for every unit of its source, in which every
-- dependency is a node and a unit is a reverse dependency of another exactly where it depends on it;
-- or it fails with the name of a dependency that the source has no unit for, and does so only where
-- the units do not come from the view of a distro.
pub build_dag-IsOutcome :
    (p : Project) (distro : Text)
    → IsOutcome (allow_missing_deps p distro) (unit_source p distro) (build_dag p distro)
unfolding build_dag
build_dag-IsOutcome p distro =
    let units = unit_source p distro in
    let (nodes, made, fresh) = make_nodes-IsFresh p units distro units in
    rw (made, build_dag)
      (link-IsOutcome (allow_missing_deps p distro) units nodes fresh.nodes_same fresh.no_rdeps)
