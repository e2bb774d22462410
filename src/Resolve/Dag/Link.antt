-- ===== src/Resolve/Dag/Link.antt =====
-- What the second loop of `BuildDAG` makes of the nodes.
use yoe.Common.{
  if◌then◌else◌, Bool-cases, Option-cases, Result, ok, err, one_if, count, count-snoc, ◌+◌, ◌≡◌,
  refl, sym, ◌∙◌, inl, inr, Bool, true, false, ◌&&◌, none, some, List, [], ◌∷◌, ◌++◌, arith,
  eq_of_text_eq, Text, text_eq, get-put, Dict, get, put,
}
use yoe.Resolve.Edges.{is_some}
use yoe.Resolve.Dag.{Node, DagError, link_deps, deps_of, rdeps_of}

abbrev pub has_node : Dict Node → Text → Bool
has_node nodes name = is_some (get name nodes)

-- The nodes after the dependencies `ds` of `name` are linked.
pub record IsLinked (name : Text) (ds : List Text) (before after : Dict Node) : Type 0 where
  pub nodes_same : (x : Text) → has_node after x ≡ has_node before x
  pub deps_same : (x : Text) → deps_of after x ≡ deps_of before x
  pub rdeps_more :
      (x y : Text)
      → count x (rdeps_of after y)
        ≡ count x (rdeps_of before y)
          + (if text_eq name x && has_node before y then count y ds else 0)

module _ (name dep : Text) (target : Node) (nodes : Dict Node)
    (h : get dep nodes ≡ some target) where
  abbrev added : Dict Node
  added = put dep (record target { rdeps = target.rdeps ++ (name ∷ []) }) nodes

  has-added : (x : Text) → has_node added x ≡ has_node nodes x
  has-added x =
      rw (get-put dep x (record target { rdeps = target.rdeps ++ (name ∷ []) }) nodes)
        (elim (Bool-cases (text_eq dep x)) [
          | inl e ↦ rw (e, ← eq_of_text_eq dep x e, h) refl
          | inr e ↦ rw e refl
        ])

  deps-added : (x : Text) → deps_of added x ≡ deps_of nodes x
  deps-added x =
      rw (get-put dep x (record target { rdeps = target.rdeps ++ (name ∷ []) }) nodes)
        (elim (Bool-cases (text_eq dep x)) [
          | inl e ↦ rw (e, ← eq_of_text_eq dep x e, h) refl
          | inr e ↦ rw e refl
        ])

  rdeps-added :
      (x y : Text)
      → count x (rdeps_of added y)
        ≡ count x (rdeps_of nodes y) + one_if (text_eq name x && text_eq dep y)
  rdeps-added x y =
      rw (get-put dep y (record target { rdeps = target.rdeps ++ (name ∷ []) }) nodes)
        (elim (Bool-cases (text_eq dep y)) [
          | inl e ↦
              rw (e, ← eq_of_text_eq dep y e, h) (ground (arith, count-snoc x name target.rdeps))
          | inr e ↦ rw e (ground arith)
        ])

-- A dependency that no node stands for, where that is not allowed.
abbrev pub IsFault : Bool → Dict Node → DagError → Type 0
IsFault allow nodes (DagError.missing _ dep) = (allow ≡ false) × (has_node nodes dep ≡ false)
IsFault allow nodes DagError.out_of_fuel = ⊥

pub IsFault-same :
    (allow : Bool) (before after : Dict Node) (e : DagError)
    → ((x : Text) → has_node after x ≡ has_node before x)
    → IsFault allow after e
    → IsFault allow before e
IsFault-same allow before after (DagError.missing _ dep) same f = (f.0, sym (same dep) ∙ f.1)
IsFault-same allow before after DagError.out_of_fuel same f = f

-- What holds of the result of a loop over dependencies, by its kind.
abbrev pub Links :
    Bool
    → Text
    → List Text
    → Dict Node
    → List Text
    → Result DagError (Dict Node × List Text)
    → Type 0
Links allow name ds nodes kept (err e) = IsFault allow nodes e
Links allow name ds nodes kept (ok (after, filtered)) =
    IsLinked name ds nodes after
    × ((y : Text) → count y filtered ≡ count y kept + (if has_node nodes y then count y ds else 0))

module _ (allow : Bool) (name d : Text) (ds : List Text) (nodes : Dict Node)
    (kept : List Text) where
  Links-skip :
      (r : Result DagError (Dict Node × List Text))
      → get d nodes ≡ none
      → Links allow name ds nodes kept r
      → Links allow name (d ∷ ds) nodes kept r
  unfolding count
  Links-skip (err _) e l = l
  Links-skip (ok (after, filtered)) e (l, f) = (
    record {
      nodes_same = l.nodes_same;
      deps_same = l.deps_same;
      rdeps_more = λ x y. ground (arith, l.rdeps_more x y, absent y);
    },
    λ y. ground (arith, f y, absent y),
  )
    where
      absent : (y : Text) → text_eq d y ≡ true → has_node nodes y ≡ false
      absent y same = rw (← eq_of_text_eq d y same, e) refl

  Links-add :
      (target : Node) (r : Result DagError (Dict Node × List Text))
      → (h : get d nodes ≡ some target)
      → Links allow name ds (added name d target nodes h) (kept ++ (d ∷ [])) r
      → Links allow name (d ∷ ds) nodes kept r
  unfolding count
  Links-add target (err f) e l =
      IsFault-same allow nodes (added name d target nodes e) f (has-added name d target nodes e) l
  Links-add target (ok (after, filtered)) e (l, f) = (
    record {
      nodes_same = λ x. l.nodes_same x ∙ has-added name d target nodes e x;
      deps_same = λ x. l.deps_same x ∙ deps-added name d target nodes e x;
      rdeps_more = λ x y. ground (
        arith,
        l.rdeps_more x y,
        has-added name d target nodes e y,
        rdeps-added name d target nodes e x y,
        present y,
      );
    },
    λ y. ground (arith, f y, has-added name d target nodes e y, count-snoc y d kept, present y),
  )
    where
      present : (y : Text) → text_eq d y ≡ true → has_node nodes y ≡ true
      present y same = rw (← eq_of_text_eq d y same, e) refl

pub link_deps-Links :
    (allow : Bool) (name : Text) (ds : List Text) (nodes : Dict Node) (kept : List Text)
    → Links allow name ds nodes kept (link_deps allow name nodes kept ds)
unfolding link_deps count
link_deps-Links allow name [] nodes kept = (
  record { nodes_same = λ x. refl; deps_same = λ x. refl; rdeps_more = λ x y. ground arith },
  λ y. ground arith,
)
link_deps-Links allow name (d ∷ ds) nodes kept = elim (Option-cases (get d nodes)) [
  | inl e ↦ rw (e, link_deps) (at_none allow e (link_deps-Links allow name ds nodes kept))
  | inr (target, e) ↦
      rw (e, link_deps)
        (Links-add allow name d ds nodes kept target _ e
          (link_deps-Links allow name ds (added name d target nodes e) (kept ++ (d ∷ []))))
]
  where
    at_none :
        (b : Bool)
        → get d nodes ≡ none
        → Links b name ds nodes kept (link_deps b name nodes kept ds)
        → Links b name
            (d ∷ ds)
            nodes
            kept
            (elim b as (λ _. Result DagError (Dict Node × List Text)) [
              | true ↦ link_deps b name nodes kept ds
              | false ↦ err (DagError.missing name d)
            ])
    at_none true e l = Links-skip true name d ds nodes kept _ e l
    at_none false e l = (refl, rw e refl)
