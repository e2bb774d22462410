-- ===== src/Resolve/Walk/Graph.antt =====
-- `DepsOf` and `RdepsOf` on a finished graph.
use yoe.Common.{
  ltb, Option-cases, ok, Distinct, elem-count, ◌≡◌, refl, sym, ap, ◌∙◌, ◌↔◌, inl, inr, true, none,
  some, List, Text, length-keys, Dict, get, elem, keys_of_dict,
}
use yoe.Resolve.Dag.{Node, deps_of, rdeps_of}
use yoe.Resolve.Dag.Link.{has_node}
use yoe.Resolve.Dag.Graph.{elem-keys_of_dict}
use yoe.Resolve.Sort.Round.{IsCounted}
use yoe.Resolve.Walk.{deps_at, rdeps_at, all_deps_of, all_rdeps_of}
use yoe.Resolve.Walk.Reach.{Follows, first, then_on, walk_of-Follows}

-- A unit that another one depends on, however far.
abbrev pub DependsOn : Dict Node → Text → Text → Type 0
DependsOn nodes x y = Follows (deps_of nodes) (deps_of nodes x) y

module _ (next : Text → List Text) where
  Follows-first :
      {x y z : Text} → elem y (next x) ≡ true → Follows next (next y) z → Follows next (next x) z
  Follows-first e (first m) = then_on (first e) m
  Follows-first e (then_on f m) = then_on (Follows-first e f) m

turn :
    (next back : Text → List Text)
    → ((x y : Text) → elem y (next x) ≡ true → elem x (back y) ≡ true)
    → (x : Text) → {y : Text} → Follows next (next x) y
    → Follows back (back y) x
turn next back h x (first m) = first (h x _ m)
turn next back h x (then_on {x = z} f m) = Follows-first back (h z _ m) (turn next back h x f)

module _ (nodes : Dict Node) (g : IsCounted nodes) where
  known_node : (x : Text) → elem x (keys_of_dict nodes) ≡ true → (n : Node) × (get x nodes ≡ some n)
  known_node x m = elim (Option-cases (get x nodes)) [
    | inl e ↦ absurd (missing (sym (elem-keys_of_dict x nodes) ∙ m) e)
    | inr (n, e) ↦ (n, e)
  ]
    where
      missing : has_node nodes x ≡ true → get x nodes ≡ none → ⊥
      missing h e = cc (rw e at h)

  elem-mirrored : (x y : Text) → elem x (rdeps_of nodes y) ≡ elem y (deps_of nodes x)
  elem-mirrored x y =
      elem-count x (rdeps_of nodes y)
      ∙ ap (ltb 0) (g.mirrored x y)
      ∙ sym (elem-count y (deps_of nodes x))

  has_rdeps : (x y : Text) → elem y (rdeps_of nodes x) ≡ true → elem y (keys_of_dict nodes) ≡ true
  unfolding elem
  has_rdeps x y m = elim (Option-cases (get y nodes)) [
    | inl e ↦ absurd (no_deps e (sym (elem-mirrored y x) ∙ m))
    | inr (n, e) ↦ elem-keys_of_dict y nodes ∙ rw e refl
  ]
    where
      no_deps : get y nodes ≡ none → elem x (deps_of nodes y) ≡ true → ⊥
      no_deps e h = cc (rw e at h)

  -- In a graph whose reverse dependencies mirror its dependencies, `DepsOf` a node ends and returns,
  -- each once, exactly the units that it depends on, however far: the unit itself is among them where it
  -- stands on a cycle.
  pub all_deps_of-DependsOn :
      (name : Text)
      → has_node nodes name ≡ true
      → (out : List Text) × (all_deps_of nodes name ≡ ok out)
        × Distinct out
        × ((x : Text) → elem x out ≡ true ↔ DependsOn nodes name x)
  unfolding all_deps_of
  all_deps_of-DependsOn name h = rw (← length-keys nodes) (
      walk_of-Follows (λ x. deps_at (get x nodes)) (deps_of nodes) (keys_of_dict nodes)
        (λ x m. let (n, e) = known_node x m in rw e refl)
        (λ x y m e. elem-keys_of_dict y nodes ∙ g.closed x y e) name
        (elem-keys_of_dict name nodes ∙ h))

  -- In a graph whose reverse dependencies mirror its dependencies, `RdepsOf` a node ends and returns,
  -- each once, exactly the units that depend on it, however far.
  pub all_rdeps_of-DependsOn :
      (name : Text)
      → has_node nodes name ≡ true
      → (out : List Text) × (all_rdeps_of nodes name ≡ ok out)
        × Distinct out
        × ((x : Text) → elem x out ≡ true ↔ DependsOn nodes x name)
  unfolding all_rdeps_of
  all_rdeps_of-DependsOn name h =
      let (out, r, d, exact) =
        walk_of-Follows (λ x. rdeps_at (get x nodes)) (rdeps_of nodes) (keys_of_dict nodes)
          (λ x m. let (n, e) = known_node x m in rw e refl) (λ x y m e. has_rdeps x y e) name
          (elem-keys_of_dict name nodes ∙ h) in
      (
        out,
        rw (length-keys nodes) at r,
        d,
        λ x. (
          λ m.
              turn (rdeps_of nodes) (deps_of nodes) (λ y z e. sym (elem-mirrored z y) ∙ e) name
                ((exact x).0 m),
          λ f.
              (exact x).1
                (turn (deps_of nodes) (rdeps_of nodes) (λ y z e. elem-mirrored y z ∙ e) x f),
        ),
      )
