-- ===== src/Build/Order/Outcome.antt =====
-- What `BuildUnits` takes up, and why it refuses.
use yoe.Common.{
  Bool-cases, Option-cases, some_inj, Result, Result-cases, ok, err, Distinct, ◌≡◌, refl, sym, ap,
  ◌∙◌, subst, ◌↔◌, inl, inr, Bool, true, false, not, ◌&&◌, some, List, [], ◌∷◌, arith, text_eq_refl,
  Text, Dict, elem, keys_of_dict,
}
use yoe.Common.Kahn.Ordered.{Ordered}
use yoe.Starlark.Units.{not_buildable}
use yoe.Starlark.Projects.{Project, lookup_unit}
use yoe.Resolve.Dag.{Node, deps_of, unit_source, build_dag}
use yoe.Resolve.Dag.Link.{has_node}
use yoe.Resolve.Sort.{topological_sort}
use yoe.Resolve.Sort.Round.{IsCounted}
use yoe.Resolve.Sort.Order.{IsOrder, IsSorting}
use yoe.Resolve.Sort.Built.{build_dag-IsCounted, build_dag-sorts, build_dag-refused}
use yoe.Resolve.Walk.{WalkError, not_found, no_node, out_of_fuel}
use yoe.Build.Order.{
  OrderError, dag_error, sort_error, unbuildable, walk_error, within, chosen_order,
  first_unbuildable, skip_unbuildable, build_order,
}
use yoe.Build.Order.Keep.{
  keep, within-keep, skip_unbuildable-keep, elem-keep, Distinct-keep, Ordered-keep,
}
use yoe.Build.Order.Chosen.{IsChosen, IsPart, chosen_order-IsPart}

module _ (p : Project) (distro : Text) (names : List Text) where
  -- The units to build, each once and behind what it depends on: those of the graph, or the named
  -- ones and all that they depend on, without the images that the machine cannot boot.
  pub record IsBuildOrder (nodes : Dict Node) (order : List Text) : Type 0 where
    pub counted : IsCounted nodes
    pub distinct : Distinct order
    pub ordered : Ordered (λ x. within order (deps_of nodes x)) [] order
    pub holds :
        (x : Text)
        → elem x order ≡ true
          ↔ IsChosen nodes names x × (not_buildable (lookup_unit p distro x) ≡ false)

  abbrev pub IsBuild : Result OrderError (Dict Node × List Text) → Type 0
  IsBuild (ok (nodes, order)) = IsBuildOrder nodes order
  IsBuild (err (dag_error e)) = build_dag p distro ≡ err e
  IsBuild (err (sort_error e)) =
      (nodes : Dict Node) × (build_dag p distro ≡ ok nodes)
      × ((order : List Text) → ¬ IsOrder nodes order)
  IsBuild (err (unbuildable n)) =
      (elem n names ≡ true) × (not_buildable (lookup_unit p distro n) ≡ true)
  IsBuild (err (walk_error (not_found n))) =
      (nodes : Dict Node) × (build_dag p distro ≡ ok nodes)
      × (elem n names ≡ true)
      × (has_node nodes n ≡ false)
  IsBuild (err (walk_error (no_node n))) = ⊥
  IsBuild (err (walk_error out_of_fuel)) = ⊥

  first_unbuildable_lem :
      (ns : List Text) (n : Text)
      → first_unbuildable p distro ns ≡ some n
      → (elem n ns ≡ true) × (not_buildable (lookup_unit p distro n) ≡ true)
  unfolding first_unbuildable elem
  first_unbuildable_lem [] n h = absurd (cc)
  first_unbuildable_lem (x ∷ ns) n h = elim (Bool-cases (not_buildable (lookup_unit p distro x))) [
    | inl e ↦ let same : x ≡ n = some_inj (rw e at h) in rw (← same) (rw (text_eq_refl x) refl, e)
    | inr e ↦ let (m, u) = first_unbuildable_lem ns n (rw e at h) in (ground (arith, m), u)
  ]

  module _ (nodes : Dict Node) (order : List Text) (g : IsCounted nodes)
      (o : IsOrder nodes order) where
    cut_down :
        (chosen : List Text) (test : Text → Bool)
        → chosen ≡ keep test order
        → ((x : Text) → (test x && elem x order) ≡ true ↔ IsChosen nodes names x)
        → IsBuildOrder nodes (skip_unbuildable p distro chosen)
    cut_down chosen test e exact =
        let good : Text → Bool = λ x. not (not_buildable (lookup_unit p distro x)) in
        let same : skip_unbuildable p distro chosen ≡ keep good (keep test order) =
          skip_unbuildable-keep p distro chosen ∙ ap (keep good) e in
        let last = keep good (keep test order) in
        let in_last : (x : Text) → elem x last ≡ (good x && (test x && elem x order)) = λ x.
          elem-keep good x (keep test order) ∙ ap (λ b. good x && b) (elem-keep test x order) in
        rw same (record {
          counted = g;
          distinct = Distinct-keep good (keep test order) (Distinct-keep test order o.distinct);
          ordered =
              Ordered-keep good (λ x. keep test (deps_of nodes x))
                (λ x. within last (deps_of nodes x)) (λ x y m. cut_second x y last (in_last y) m)
                (keep test order) [] [] (λ y m t. m)
                (Ordered-keep test (deps_of nodes) (λ x. keep test (deps_of nodes x))
                  (λ x y m. cut_first x y m) order [] [] (λ y m t. m) o.ordered);
          holds = λ x. (
            λ m. ((exact x).0 (ground (arith, in_last x, m)), ground (arith, in_last x, m)),
            λ w. let m = (exact x).1 w.0 in in_last x ∙ rw (w.1, m) refl,
          );
        })
      where
        cut_first :
            (x y : Text)
            → elem y (keep test (deps_of nodes x)) ≡ true
            → (elem y (deps_of nodes x) ≡ true) × (test y ≡ true)
        cut_first x y m = ground (arith, elem-keep test y (deps_of nodes x), m)

        cut_second :
            (x y : Text) (last : List Text)
            → elem y last
              ≡ (not (not_buildable (lookup_unit p distro y)) && (test y && elem y order))
            → elem y (within last (deps_of nodes x)) ≡ true
            → (elem y (keep test (deps_of nodes x)) ≡ true)
              × (not (not_buildable (lookup_unit p distro y)) ≡ true)
        cut_second x y last h m =
            let both : (elem y last && elem y (deps_of nodes x)) ≡ true =
              sym (elem-keep (λ z. elem z last) y (deps_of nodes x))
              ∙ ap (elem y) (sym (within-keep last (deps_of nodes x)))
              ∙ m in
            ground (arith, both, h, elem-keep test y (deps_of nodes x))

  part-IsBuild :
      (nodes : Dict Node) (order : List Text)
      → build_dag p distro ≡ ok nodes
      → IsCounted nodes
      → IsOrder nodes order
      → (r : Result WalkError (List Text)) → IsPart nodes order names r
      → IsBuild (elim r as (λ _. Result OrderError (Dict Node × List Text)) [
        | err e ↦ err (walk_error e)
        | ok chosen ↦ ok (nodes, skip_unbuildable p distro chosen)
      ])
  part-IsBuild nodes order b g o (err (not_found n)) h = (nodes, b, h.0, h.1)
  part-IsBuild nodes order b g o (err (no_node n)) h = h
  part-IsBuild nodes order b g o (err out_of_fuel) h = h
  part-IsBuild nodes order b g o (ok chosen) h =
      let (test, e, exact) = h in cut_down nodes order g o chosen test e exact

  -- Where no name stands twice among the units of a project, `BuildUnits` takes up exactly the units of
  -- its graph, or the named ones and all that they depend on, less the images that the machine cannot
  -- boot; each once, and behind all of its dependencies that are taken up. It refuses only a project
  -- whose graph `BuildDAG` refuses or that has no build order, a named image that the machine cannot
  -- boot, and a name without a unit.
  pub build_order-IsBuild :
      Distinct (keys_of_dict (unit_source p distro)) → IsBuild (build_order p distro names)
  unfolding build_order
  build_order-IsBuild d = elim (Result-cases (build_dag p distro)) [
    | inr (e, b) ↦ rw (b, build_order) b
    | inl (nodes, b) ↦
        let g = build_dag-IsCounted p distro nodes d b in
        let sorting = build_dag-sorts p distro nodes d b in
        elim (Result-cases (topological_sort nodes)) [
          | inr (e, r) ↦
              rw (b, build_order, r)
                (nodes, b, λ order. build_dag-refused p distro nodes d b e r order)
          | inl (order, r) ↦
              let o : IsOrder nodes order = subst (IsSorting nodes) r sorting in
              elim (Option-cases (first_unbuildable p distro names)) [
                | inr (n, f) ↦ rw (b, build_order, r, f) (first_unbuildable_lem names n f)
                | inl f ↦
                    rw (b, build_order, r, f)
                      (part-IsBuild nodes order b g o (chosen_order nodes order names)
                        (chosen_order-IsPart nodes g order o names))
              ]
        ]
  ]
