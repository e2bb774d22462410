-- ===== src/Resolve/Sort/Order.antt =====
-- `topologicalSort` returns a build order where there is one, and the names of a cycle where not.
use yoe.Common.{
  ltb, ◌==◌, Bool-cases, if_elim, length, length-append, List-cases, Result, ok, err, Distinct,
  is_positive, pos, one_if, count, count-append, elem-count, count-of_Distinct, Distinct-of_count,
  length-le_of_count, sort_strings, elem-sort_strings, ℕ, zero, suc, ◌+◌, ◌≤◌, ◌<◌, ◌≡◌, refl, ap,
  ◌∙◌, ◌≢◌, inl, inr, true, false, not, ◌&&◌, some, List, [], ◌∷◌, ◌++◌, arith, text_eq_refl,
  text_eq_iff, Text, length-keys, Dict, elem, keys_of_dict,
}
use yoe.Common.Kahn.{degree, names_with}
use yoe.Common.Kahn.Released.{left, left-positive, is_positive-pos}
use yoe.Common.Kahn.Ordered.{Ordered, Ordered-avoids}
use yoe.Common.Kahn.Names.{count-names_with}
use yoe.Resolve.Dag.{Node, deps_of, rdeps_of}
use yoe.Resolve.Dag.Link.{has_node}
use yoe.Resolve.Dag.Graph.{elem-keys_of_dict}
use yoe.Resolve.Sort.{
  Sorting, SortError, cycle, out_of_fuel, release_all, sort_loop, finish_sort, first_sorting,
  topological_sort,
}
use yoe.Resolve.Sort.Round.{IsCounted, Holds, first-Holds, pop-Holds}

-- A build order: every node once, and each behind its dependencies.
pub record IsOrder (nodes : Dict Node) (order : List Text) : Type 0 where
  pub distinct : Distinct order
  pub complete : (x : Text) → elem x order ≡ has_node nodes x
  pub ordered : Ordered (deps_of nodes) [] order

-- Nodes each of which depends on another one of them.
pub record IsCycle (nodes : Dict Node) (names : List Text) : Type 0 where
  pub named : names ≢ []
  pub known : (x : Text) → elem x names ≡ true → has_node nodes x ≡ true
  pub waits :
      (x : Text)
      → elem x names ≡ true
      → (y : Text) × (elem y (deps_of nodes x) ≡ true) × (elem y names ≡ true)

abbrev pub IsSorting : Dict Node → Result SortError (List Text) → Type 0
IsSorting nodes (ok order) = IsOrder nodes order
IsSorting nodes (err (cycle names)) = IsCycle nodes names
IsSorting nodes (err out_of_fuel) = ⊥

module _ (nodes : Dict Node) (g : IsCounted nodes) where
  count-keys : (x : Text) → count x (keys_of_dict nodes) ≡ one_if (has_node nodes x)
  count-keys x =
      count-of_Distinct x (keys_of_dict nodes) g.distinct ∙ ap one_if (elem-keys_of_dict x nodes)

  length-le :
      (xs : List Text)
      → ((x : Text) → count x xs ≤ one_if (has_node nodes x))
      → length xs ≤ length nodes
  length-le xs h = omega (
    arith,
    length-le_of_count xs (keys_of_dict nodes) (λ x. omega (arith, h x, count-keys x)),
    length-keys nodes,
  )

  module _ (done : List Text) (s : Sorting) (h : Holds nodes [] done s) where
    counted :
        (x : Text)
        → count x done + count x s.queue
          ≡ one_if (has_node nodes x && (left (deps_of nodes x) done == 0))
    unfolding count
    counted x = ground (arith, h.released.counted x)

    room : length done + length s.queue ≤ length nodes
    room = omega (
      arith,
      length-append done s.queue,
      length-le (done ++ s.queue) (λ x. ground (arith, counted x, count-append x done s.queue)),
    )

  loop_ends :
      (fuel : ℕ) (s : Sorting) (done : List Text)
      → Holds nodes [] done s
      → length done + fuel ≡ length nodes
      → (t : Sorting) × (out : List Text) × (sort_loop fuel nodes s done ≡ some (t, out))
        × Holds nodes [] out t
        × (t.queue ≡ [])
  unfolding sort_loop
  loop_ends zero s done h n = elim (List-cases s.queue) [
    | inl e ↦ (s, done, simp (e, sort_loop), h, e)
    | inr (x, rest, e) ↦ absurd (omega (arith, room done s h, ap length e))
  ]
  loop_ends (suc fuel) s done h n = elim (List-cases s.queue) [
    | inl e ↦ (s, done, simp (e, sort_loop), h, e)
    | inr (x, rest, e) ↦
        let next = release_all (record { degrees = s.degrees; queue = rest }) (rdeps_of nodes x) in
        let (t, out, r, k, q) =
          loop_ends fuel next (done ++ (x ∷ [])) (pop-Holds nodes g done s x rest e h)
            (omega (arith, length-append done (x ∷ []))) in
        (t, out, rw (e, sort_loop) r, k, q)
  ]

  module _ (order : List Text) (s : Sorting) (h : Holds nodes [] order s) (e : s.queue ≡ []) where
    placed :
        (x : Text)
        → count x order ≡ one_if (has_node nodes x && (left (deps_of nodes x) order == 0))
    unfolding count
    placed x = omega (arith, rw e at (counted order s h x))

    listed : (x : Text) → elem x (keys_of_dict s.degrees) ≡ has_node nodes x
    listed x = rw h.keys (elem-keys_of_dict x nodes)

    positive :
        (x : Text)
        → has_node nodes x ≡ true
        → is_positive (degree s.degrees x) ≡ ltb 0 (left (deps_of nodes x) order)
    unfolding count
    positive x k =
        ap is_positive (h.released.waiting x k ∙ ap pos (omega arith))
        ∙ is_positive-pos (left (deps_of nodes x) order)

    abbrev stuck : List Text
    stuck = sort_strings (names_with is_positive s.degrees)

    elem-stuck : (x : Text) → elem x stuck ≡ (has_node nodes x && not (elem x order))
    elem-stuck x = ground (
      arith,
      elem-sort_strings x (names_with is_positive s.degrees),
      elem-count x (names_with is_positive s.degrees),
      count-names_with is_positive s.degrees x (rw h.keys g.distinct),
      listed x,
      positive x,
      placed x,
      elem-count x order,
    )

    no_more :
        (x : Text) → has_node nodes x ≡ true → elem x order ≡ false → length order < length nodes
    unfolding count
    no_more x k m = omega (
      arith,
      length-le (x ∷ order)
          (λ y. ground (arith, placed y, text_eq_iff x y, elem-count x order, k, m)),
    )

    complete : length order ≡ length nodes → IsOrder nodes order
    complete n = record {
      distinct = Distinct-of_count order (λ x. ground (arith, placed x));
      complete = λ x. elim (Bool-cases (elem x order)) [
        | inl m ↦ ground (arith, placed x, elem-count x order)
        | inr m ↦ elim (Bool-cases (has_node nodes x)) [
          | inl k ↦ absurd (omega (arith, no_more x k m))
          | inr k ↦ rw (m, k) refl
        ]
      ];
      ordered = h.ordered;
    }

    waits :
        (x : Text)
        → elem x stuck ≡ true
        → (y : Text) × (elem y (deps_of nodes x) ≡ true) × (elem y stuck ≡ true)
    waits x m =
        let some_left : 0 < left (deps_of nodes x) order =
          ground (arith, elem-stuck x, placed x, elem-count x order) in
        let (y, d, n) = left-positive (deps_of nodes x) order some_left in
        (y, d, ground (arith, elem-stuck y, g.closed x y d))

    cyclic : length order ≢ length nodes → IsCycle nodes stuck
    unfolding elem
    cyclic n = record {
      named = λ none_stuck. n (omega (arith, room order s h, all_placed none_stuck));
      known = λ x m. ground (arith, elem-stuck x);
      waits = waits;
    }
      where
        all_placed : stuck ≡ [] → length nodes ≤ length order
        all_placed z = omega (
          arith,
          length-keys nodes,
          length-le_of_count (keys_of_dict nodes) order (λ x.
              let none_here : elem x stuck ≡ false = rw z refl in
              ground (arith, count-keys x, elem-stuck x, elem-count x order)),
        )

    finish-IsSorting : IsSorting nodes (finish_sort nodes s order)
    unfolding finish_sort
    finish-IsSorting =
        if_elim (IsSorting nodes) (length order == length nodes) (λ same. complete (ground arith))
          (λ other. cyclic (ground arith))

-- `topologicalSort` ends on every map of nodes whose reverse dependencies mirror its dependencies.
-- It returns a build order, in which every node stands once and behind all that it depends on, or an
-- error with the names of nodes each of which depends on another one of them.
pub topological_sort-IsSorting :
    (nodes : Dict Node) → IsCounted nodes → IsSorting nodes (topological_sort nodes)
unfolding topological_sort
topological_sort-IsSorting nodes g =
    let (s, order, r, h, e) =
      loop_ends nodes g (length nodes) (first_sorting nodes) [] (first-Holds nodes g)
        (omega arith) in
    rw (r, topological_sort) (finish-IsSorting nodes g order s h e)

-- Where the error names a cycle there is no build order at all.
pub IsCycle-no-IsOrder :
    (nodes : Dict Node) (names order : List Text) → IsCycle nodes names → ¬ IsOrder nodes order
unfolding elem
IsCycle-no-IsOrder nodes [] order c o = c.named refl
IsCycle-no-IsOrder nodes (x ∷ names) order c o =
    let listed : elem x (x ∷ names) ≡ true = rw (text_eq_refl x) refl in
    let free =
      Ordered-avoids (deps_of nodes) (λ y. elem y (x ∷ names)) c.waits order [] o.ordered
        (λ y m. cc) x (o.complete x ∙ c.known x listed) in
    cc
