-- ===== src/Resolve/Dag/Filter.antt =====
-- What the loop over all the nodes makes of them.
use yoe.Common.{
  if◌then◌else◌, Bool-cases, Option-cases, Result, ok, err, count, times, times-suc,
  times-zero_plus, count-nil_plus, ◌+◌, ◌≡◌, refl, ◌∙◌, subst, inl, inr, Bool, false, not, ◌&&◌,
  ◌||◌, List, [], ◌∷◌, arith, text_eq_refl, eq_of_text_eq, Text, text_eq, get-put, Dict, get, elem,
}
use yoe.Resolve.Dag.{Node, DagError, link_deps, set_deps, deps_of, rdeps_of, link_nodes}
use yoe.Resolve.Dag.Link.{has_node, IsLinked, Links, link_deps-Links, IsFault, IsFault-same}

module _ (name : Text) (filtered : List Text) (nodes : Dict Node) where
  has-set_deps : (x : Text) → has_node (set_deps name filtered nodes) x ≡ has_node nodes x
  unfolding set_deps
  has-set_deps x = elim (Option-cases (get name nodes)) [
    | inl e ↦ rw (e, set_deps) refl
    | inr (node, e) ↦
        rw (e, set_deps)
          (rw (get-put name x (record node { deps = filtered }) nodes)
            (elim (Bool-cases (text_eq name x)) [
              | inl f ↦ rw (f, ← eq_of_text_eq name x f, e) refl
              | inr f ↦ rw f refl
            ]))
  ]

  rdeps-set_deps : (x : Text) → rdeps_of (set_deps name filtered nodes) x ≡ rdeps_of nodes x
  unfolding set_deps
  rdeps-set_deps x = elim (Option-cases (get name nodes)) [
    | inl e ↦ rw (e, set_deps) refl
    | inr (node, e) ↦
        rw (e, set_deps)
          (rw (get-put name x (record node { deps = filtered }) nodes)
            (elim (Bool-cases (text_eq name x)) [
              | inl f ↦ rw (f, ← eq_of_text_eq name x f, e) refl
              | inr f ↦ rw f refl
            ]))
  ]

  deps-set_deps :
      (x : Text)
      → deps_of (set_deps name filtered nodes) x
        ≡ (if text_eq name x && has_node nodes name then filtered else deps_of nodes x)
  unfolding set_deps
  deps-set_deps x = elim (Option-cases (get name nodes)) [
    | inl e ↦ rw (e, set_deps) (ground arith)
    | inr (node, e) ↦
        rw (e, set_deps)
          (rw (get-put name x (record node { deps = filtered }) nodes)
            (elim (Bool-cases (text_eq name x)) [ inl f ↦ rw f refl | inr f ↦ rw f refl ]))
  ]

no_deps : (nodes : Dict Node) (x : Text) → has_node nodes x ≡ false → deps_of nodes x ≡ []
no_deps nodes x h = elim (Option-cases (get x nodes)) [
  | inl e ↦ rw e refl
  | inr (node, e) ↦ cc (rw e at h)
]

-- The nodes after the nodes of `names` are linked.
pub record IsFiltered (names : List Text) (before after : Dict Node) : Type 0 where
  pub nodes_same : (x : Text) → has_node after x ≡ has_node before x
  pub deps_kept :
      (x y : Text)
      → count y (deps_of after x)
        ≡ (if not (elem x names) || has_node before y then count y (deps_of before x) else 0)
  pub rdeps_more :
      (x y : Text)
      → count x (rdeps_of after y)
        ≡ count x (rdeps_of before y)
          + times (count x names) (if has_node before y then count y (deps_of before x) else 0)

module _ (name : Text) (names : List Text) (nodes linked after : Dict Node) (filtered : List Text)
    (l : IsLinked name (deps_of nodes name) nodes linked)
    (kept : (y : Text)
      → count y filtered ≡ (if has_node nodes y then count y (deps_of nodes name) else 0))
    (i : IsFiltered names (set_deps name filtered linked) after) where
  abbrev next : Dict Node
  next = set_deps name filtered linked

  has-next : (x : Text) → has_node next x ≡ has_node nodes x
  has-next x = has-set_deps name filtered linked x ∙ l.nodes_same x

  deps-next_same :
      (y : Text)
      → count y (deps_of next name) ≡ (if has_node nodes y then count y (deps_of nodes name) else 0)
  unfolding count
  deps-next_same y = elim (Bool-cases (has_node nodes name)) [
    | inl h ↦
        rw (deps-set_deps name filtered linked name, l.nodes_same name, text_eq_refl name, h)
          (kept y)
    | inr h ↦
        rw
          (
            deps-set_deps name filtered linked name,
            l.nodes_same name,
            text_eq_refl name,
            h,
            l.deps_same name,
            no_deps nodes name h,
          )
          (ground arith)
  ]

  deps-next_other : (x : Text) → text_eq name x ≡ false → deps_of next x ≡ deps_of nodes x
  deps-next_other x h = rw (deps-set_deps name filtered linked x, h) (l.deps_same x)

  rdeps-next :
      (x y : Text)
      → count x (rdeps_of next y)
        ≡ count x (rdeps_of nodes y)
          + (if text_eq name x && has_node nodes y then count y (deps_of nodes name) else 0)
  rdeps-next x y = rw (rdeps-set_deps name filtered linked y) (l.rdeps_more x y)

  deps_step :
      (x y : Text)
      → (if not (elem x names) || has_node next y then count y (deps_of next x) else 0)
        ≡ (if not (elem x (name ∷ names)) || has_node nodes y then count y (deps_of nodes x) else 0)
  unfolding elem
  deps_step x y = elim (Bool-cases (text_eq name x)) [
    | inl f ↦
        rw (← eq_of_text_eq name x f)
          (ground (arith, deps-next_same y, has-next y, text_eq_refl name))
    | inr f ↦ rw (deps-next_other x f) (ground (arith, has-next y))
  ]

  abbrev RdepsStep : Text → Text → Type 0
  RdepsStep x y =
      count x (rdeps_of next y)
        + times (count x names) (if has_node next y then count y (deps_of next x) else 0)
      ≡ count x (rdeps_of nodes y)
        + times (count x (name ∷ names)) (if has_node nodes y then count y (deps_of nodes x) else 0)

  RdepsStep-same : (y : Text) → RdepsStep name y
  unfolding count
  RdepsStep-same y =
      let d = if has_node nodes y then count y (deps_of nodes name) else 0 in
      let same : (if has_node nodes y then count y (deps_of next name) else 0) ≡ d =
        ground (arith, deps-next_same y) in
      rw (has-next y, same, text_eq_refl name)
        (ground (arith, rdeps-next name y, times-suc (count name names) d, text_eq_refl name))

  rdeps_step : (x y : Text) → RdepsStep x y
  unfolding count
  rdeps_step x y = elim (Bool-cases (text_eq name x)) [
    | inl f ↦ subst (λ z. RdepsStep z y) (eq_of_text_eq name x f) (RdepsStep-same y)
    | inr f ↦
        rw (has-next y, deps-next_other x f, f)
          (ground (
            arith,
            rdeps-next x y,
            times-zero_plus (count x names)
                (if has_node nodes y then count y (deps_of nodes x) else 0),
            f,
          ))
  ]

  IsFiltered-step : IsFiltered (name ∷ names) nodes after
  unfolding elem
  IsFiltered-step = record {
    nodes_same = λ x. i.nodes_same x ∙ has-next x;
    deps_kept = λ x y. i.deps_kept x y ∙ deps_step x y;
    rdeps_more = λ x y. i.rdeps_more x y ∙ rdeps_step x y;
  }

abbrev pub Filters : Bool → List Text → Dict Node → Result DagError (Dict Node) → Type 0
Filters allow names nodes (err e) = IsFault allow nodes e
Filters allow names nodes (ok after) = IsFiltered names nodes after

pub link_nodes-Filters :
    (allow : Bool) (nodes : Dict Node) (names : List Text)
    → Filters allow names nodes (link_nodes allow nodes names)
unfolding link_nodes elem count
link_nodes-Filters allow nodes [] = record {
  nodes_same = λ x. refl;
  deps_kept = λ x y. ground arith;
  rdeps_more = λ x y. ground arith;
}
link_nodes-Filters allow nodes (name ∷ names) =
    go (link_deps allow name nodes [] (deps_of nodes name))
      (link_deps-Links allow name (deps_of nodes name) nodes [])
      (λ linked filtered. link_nodes-Filters allow (set_deps name filtered linked) names)
  where
    finish :
        (filtered : List Text) (linked : Dict Node) (r : Result DagError (Dict Node))
        → IsLinked name (deps_of nodes name) nodes linked
        → ((y : Text)
            → count y filtered ≡ (if has_node nodes y then count y (deps_of nodes name) else 0))
        → Filters allow names (set_deps name filtered linked) r
        → Filters allow (name ∷ names) nodes r
    finish filtered linked (err e) l k f =
        IsFault-same allow nodes (set_deps name filtered linked) e
          (λ x. has-set_deps name filtered linked x ∙ l.nodes_same x) f
    finish filtered linked (ok after) l k f =
        IsFiltered-step name names nodes linked after filtered l k f

    go :
        (r : Result DagError (Dict Node × List Text))
        → Links allow name (deps_of nodes name) nodes [] r
        → ((linked : Dict Node) (filtered : List Text)
            → Filters allow names
                (set_deps name filtered linked)
                (link_nodes allow (set_deps name filtered linked) names))
        → Filters allow (name ∷ names) nodes (elim r as (λ _. Result DagError (Dict Node)) [
          | err e ↦ err e
          | ok (linked, filtered) ↦ link_nodes allow (set_deps name filtered linked) names
        ])
    go (err _) l rest = l
    go (ok (linked, filtered)) (l, k) rest =
        finish filtered linked _ l (λ y. k y ∙ count-nil_plus y _) (rest linked filtered)
