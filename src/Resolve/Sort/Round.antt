-- ===== src/Resolve/Sort/Round.antt =====
-- What a round of `topologicalSort` keeps.
use yoe.Common.{
  ◌==◌, if◌then◌else◌, Bool-cases, Option-cases, length, Distinct, ℤ, is_zero, pos, one_if, count,
  count-snoc, elem-count, sort_strings, count-sort_strings, ◌+◌, ◌≡◌, refl, ap, ◌∙◌, inl, inr, true,
  ◌&&◌, List, [], ◌∷◌, ◌++◌, arith, text_eq_refl, Text, text_eq, Dict, get, elem, keys_of_dict,
}
use yoe.Common.Kahn.{degree, count_down, names_with}
use yoe.Common.Kahn.Released.{
  left, left-nil, left-zero, is_zero-pos, Released, Released-down, Released-next,
}
use yoe.Common.Kahn.Ordered.{Ordered, Ordered-snoc}
use yoe.Common.Kahn.Names.{count-names_with, keys-count_down}
use yoe.Resolve.Dag.{Node, deps_of, rdeps_of}
use yoe.Resolve.Dag.Link.{has_node}
use yoe.Resolve.Dag.Graph.{elem-keys_of_dict}
use yoe.Resolve.Sort.{in_degrees, Sorting, release, release_all, first_sorting}

-- A map of nodes whose reverse dependencies are the dependencies read backwards, each as often.
pub record IsCounted (nodes : Dict Node) : Type 0 where
  pub distinct : Distinct (keys_of_dict nodes)
  pub closed : (x y : Text) → elem y (deps_of nodes x) ≡ true → has_node nodes y ≡ true
  pub mirrored : (x y : Text) → count x (rdeps_of nodes y) ≡ count y (deps_of nodes x)

module _ (nodes : Dict Node) where
  abbrev pub Left : List Text → List Text → List Text → Dict ℤ → Type 0
  Left = Released (has_node nodes) (deps_of nodes) (rdeps_of nodes)

  -- `rs` is still to be released for the last name of `done`.
  pub record Holds (rs done : List Text) (s : Sorting) : Type 0 where
    pub released : Left rs done s.queue s.degrees
    pub keys : keys_of_dict s.degrees ≡ keys_of_dict nodes
    pub ordered : Ordered (deps_of nodes) [] done

  release-Holds :
      (r : Text) (rs done : List Text) (s : Sorting)
      → Holds (r ∷ rs) done s
      → has_node nodes r ≡ true
      → Holds rs done (release s r)
  unfolding release
  release-Holds r rs done s h k = record {
    released =
        Released-down (has_node nodes) (deps_of nodes) (rdeps_of nodes) r rs done s.queue s.degrees
          h.released _ k (λ x. queued x);
    keys = keys-count_down s.degrees r (rw (h.keys, elem-keys_of_dict r nodes) k) ∙ h.keys;
    ordered = h.ordered;
  }
    where
      queued :
          (x : Text)
          → count x (
              if is_zero (degree (count_down s.degrees r) r)
              then sort_strings (s.queue ++ (r ∷ []))
              else s.queue)
            ≡ count x s.queue + one_if (is_zero (degree (count_down s.degrees r) r) && text_eq r x)
      queued x = elim (Bool-cases (is_zero (degree (count_down s.degrees r) r))) [
        | inl z ↦ rw z (count-sort_strings x (s.queue ++ (r ∷ [])) ∙ count-snoc x r s.queue)
        | inr z ↦ rw z (omega arith)
      ]

  pub release_all-Holds :
      (rs done : List Text) (s : Sorting)
      → ((r : Text) → elem r rs ≡ true → has_node nodes r ≡ true)
      → Holds rs done s
      → Holds [] done (release_all s rs)
  unfolding release_all elem
  release_all-Holds [] done s k h = h
  release_all-Holds (r ∷ rs) done s k h =
      release_all-Holds rs done (release s r) (λ x m. k x (ground arith))
        (release-Holds r rs done s h (k r (ground (arith, text_eq_refl r))))

  keys-in_degrees : (ns : Dict Node) → keys_of_dict (in_degrees ns) ≡ keys_of_dict ns
  unfolding in_degrees keys_of_dict
  keys-in_degrees [] = refl
  keys-in_degrees ((j, n) ∷ ns) = ap (λ l. j ∷ l) (keys-in_degrees ns)

  degree-in_degrees :
      (ns : Dict Node) (x : Text) → degree (in_degrees ns) x ≡ pos (length (deps_of ns x))
  unfolding in_degrees get
  degree-in_degrees [] x = refl
  degree-in_degrees ((j, n) ∷ ns) x = elim (Bool-cases (text_eq j x)) [
    | inl e ↦ rw e refl
    | inr e ↦ rw e (degree-in_degrees ns x)
  ]

  depends : (x y : Text) → elem y (deps_of nodes x) ≡ true → has_node nodes x ≡ true
  unfolding elem
  depends x y m = elim (Option-cases (get x nodes)) [
    | inl e ↦ cc (rw e at m)
    | inr (n, e) ↦ rw e refl
  ]

  module _ (g : IsCounted nodes) where
    pub first-Holds : Holds [] [] (first_sorting nodes)
    unfolding first_sorting count
    first-Holds = record {
      released = record {
        waiting =
            λ x k. degree-in_degrees nodes x ∙ ap pos (omega (arith, left-nil (deps_of nodes x)));
        counted = λ x.
            let listed : elem x (keys_of_dict (in_degrees nodes)) ≡ has_node nodes x =
              rw (keys-in_degrees nodes) (elem-keys_of_dict x nodes) in
            let none_left =
              ap is_zero (degree-in_degrees nodes x) ∙ is_zero-pos (length (deps_of nodes x)) in
            ground (
              arith,
              listed,
              none_left,
              left-nil (deps_of nodes x),
              count-sort_strings x (names_with is_zero (in_degrees nodes)),
              count-names_with is_zero (in_degrees nodes) x (rw (keys-in_degrees nodes) g.distinct),
            );
      };
      keys = keys-in_degrees nodes;
      ordered = tt;
    }

    -- The front of the queue leaves it.
    pub pop-Holds :
        (done : List Text) (s : Sorting) (name : Text) (rest : List Text)
        → s.queue ≡ name ∷ rest
        → Holds [] done s
        → Holds []
            (done ++ (name ∷ []))
            (release_all (record { degrees = s.degrees; queue = rest }) (rdeps_of nodes name))
    unfolding count
    pop-Holds done s name rest e h =
        release_all-Holds (rdeps_of nodes name) (done ++ (name ∷ []))
          (record { degrees = s.degrees; queue = rest })
          (λ r m. depends r name (
            ground (
              arith,
              g.mirrored r name,
              elem-count r (rdeps_of nodes name),
              elem-count name (deps_of nodes r),
            )))
          (record {
            released =
                Released-next (has_node nodes) (deps_of nodes) (rdeps_of nodes) name done s.queue
                  rest s.degrees (λ y. g.mirrored y name) h.released (λ y. rw e refl);
            keys = h.keys;
            ordered = Ordered-snoc (deps_of nodes) done [] name h.ordered (λ y m.
                left-zero (deps_of nodes name) done (none_left (rw e at (h.released.counted name)))
                  y m);
          })
      where
        none_left :
            count name done + count name (name ∷ rest)
              ≡ one_if
                  (has_node nodes name && (left (deps_of nodes name) done + count name [] == 0))
            → left (deps_of nodes name) done ≡ 0
        none_left c = ground (arith, c, text_eq_refl name)
