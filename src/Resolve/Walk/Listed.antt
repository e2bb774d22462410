-- ===== src/Resolve/Walk/Listed.antt =====
-- `TransitiveDeps` on a finished graph.
use yoe.Common.{
  if◌then◌else◌, Bool-cases, Option-cases, length, Distinct, elem-snoc, ℕ, suc, ◌≤◌, ◌<◌, ◌≡◌, refl,
  sym, ap, ◌∙◌, subst, ◌↔◌, ◌⊎◌, inl, inr, true, some, List, [], ◌∷◌, ◌++◌, arith, eq_of_text_eq,
  Text, text_eq, length-keys, Dict, get, elem, keys_of_dict,
}
use yoe.Common.Kahn.Ordered.{Ordered}
use yoe.Common.Worklist.Step.{unseen_le}
use yoe.Resolve.Dag.{Node, deps_of}
use yoe.Resolve.Dag.Link.{has_node}
use yoe.Resolve.Dag.Graph.{elem-keys_of_dict}
use yoe.Resolve.Sort.Round.{IsCounted}
use yoe.Resolve.Sort.Order.{IsOrder}
use yoe.Resolve.Walk.{Visit, post_from, result_of, transitive_deps}
use yoe.Resolve.Walk.Reach.{first, then_on}
use yoe.Resolve.Walk.Graph.{DependsOn}
use yoe.Resolve.Walk.Post.{Posted, Below, post_from-Posted}
use yoe.Resolve.Walk.Down.{post_from-Ordered}

position : Text → List Text → ℕ
position x [] = 0
position x (z ∷ xs) = let rest = position x xs in if text_eq z x then 0 else suc rest

position_le : (x : Text) (xs : List Text) → position x xs ≤ length xs
unfolding position
position_le x [] = omega arith
position_le x (z ∷ xs) = ground (arith, position_le x xs)

position-drops :
    (deps : Text → List Text) (xs seen : List Text)
    → Ordered deps seen xs
    → (x y : Text) → elem x xs ≡ true
    → elem y (deps x) ≡ true
    → (elem y seen ≡ true) ⊎ (position y xs < position x xs)
unfolding position elem
position-drops deps [] seen o x y m n = absurd (cc)
position-drops deps (z ∷ xs) seen o x y m n = elim (Bool-cases (text_eq z x)) [
  | inl e ↦ inl (o.0 y (subst (λ w. elem y (deps w) ≡ true) (sym (eq_of_text_eq z x e)) n))
  | inr e ↦ elim (Bool-cases (text_eq z y)) [
    | inl f ↦ inr (rw (e, f) (omega arith))
    | inr f ↦ elim (position-drops deps xs (seen ++ (z ∷ [])) o.1 x y (rw e at m) n) [
      | inl k ↦ inl (ground (arith, elem-snoc y z seen, k, f))
      | inr k ↦ inr (rw (e, f) (omega (arith, k)))
    ]
  ]
]

module _ (nodes : Dict Node) (g : IsCounted nodes) (name : Text) where
  abbrev start : Visit
  start = record { visited = []; result = [] }

  closed_keys :
      (x y : Text)
      → elem x (keys_of_dict nodes) ≡ true
      → elem y (deps_of nodes x) ≡ true
      → elem y (keys_of_dict nodes) ≡ true
  closed_keys x y m e = elem-keys_of_dict y nodes ∙ g.closed x y e

  first_keys : (x : Text) → elem x (deps_of nodes name) ≡ true → elem x (keys_of_dict nodes) ≡ true
  first_keys x m = elem-keys_of_dict x nodes ∙ g.closed name x m

  start-Below : Below (deps_of nodes) (keys_of_dict nodes) closed_keys start
  unfolding Below elem
  start-Below x m = m

  start_room : length (keys_of_dict nodes) ≤ length nodes
  start_room = omega (arith, length-keys nodes)

  Follows-found :
      (t : Visit)
      → Posted (deps_of nodes) (keys_of_dict nodes) closed_keys start (deps_of nodes name) t
      → {x : Text} → DependsOn nodes name x
      → elem x t.visited ≡ true
  unfolding elem
  Follows-found t p {x} (first m) = p.covers x m
  Follows-found t p {x} (then_on {x = z} f m) = p.followed z x (Follows-found t p f) refl m

  in_order :
      (t : Visit)
      → post_from (deps_of nodes) (length nodes) start (deps_of nodes name) ≡ some t
      → (order : List Text) → IsOrder nodes order
      → Ordered (deps_of nodes) [] t.result
  unfolding elem
  in_order t r order o =
      post_from-Ordered (deps_of nodes) (keys_of_dict nodes) closed_keys (λ x. position x order)
        (λ x y m. drops x y m) (length nodes) start (deps_of nodes name) t (suc (length order))
        (omega (arith, unseen_le [] (keys_of_dict nodes), start_room)) first_keys start-Below r
        (λ x m. cc) (λ x m. omega (arith, position_le x order)) tt
    where
      has_deps : (x y : Text) → elem y (deps_of nodes x) ≡ true → has_node nodes x ≡ true
      has_deps x y m = elim (Option-cases (get x nodes)) [
        | inl e ↦ cc (rw e at m)
        | inr (n, e) ↦ rw e refl
      ]

      drops : (x y : Text) → elem y (deps_of nodes x) ≡ true → position y order < position x order
      drops x y m =
          elim (position-drops (deps_of nodes) order [] o.ordered x y
            (o.complete x ∙ has_deps x y m) m) [ inl n ↦ absurd (cc) | inr l ↦ l ]

  -- In a graph whose reverse dependencies mirror its dependencies, `TransitiveDeps` always ends. It
  -- returns, each once, exactly the units that a unit depends on, however far; and where the graph has
  -- a build order, each of them stands behind all that it depends on itself.
  pub transitive_deps-DependsOn :
      (out : List Text) × (transitive_deps nodes name ≡ some out)
      × Distinct out
      × ((x : Text) → elem x out ≡ true ↔ DependsOn nodes name x)
      × ((order : List Text) → IsOrder nodes order → Ordered (deps_of nodes) [] out)
  unfolding transitive_deps elem
  transitive_deps-DependsOn =
      let (t, r, p) =
        post_from-Posted (deps_of nodes) (keys_of_dict nodes) closed_keys (length nodes) start
          (deps_of nodes name) (omega (arith, unseen_le [] (keys_of_dict nodes), start_room))
          first_keys start-Below in
      (
        t.result,
        ap result_of r,
        p.distinct tt,
        λ x. (
          λ m. elim (p.sound x ((p.fresh x m refl).1)) [ inl n ↦ absurd (cc) | inr f ↦ f ],
          λ f. p.listed x (Follows-found t p f) refl,
        ),
        in_order t r,
      )
