-- ===== src/Resolve/Edges/Expansion.antt =====
-- The runtime closure of the build-time dependencies: it ends, and adds exactly what can be scheduled.
use yoe.Common.{
  Option-cases, length, ◌+◌, ◌≡◌, subst, ◌≢◌, ◌↔◌, inl, inr, true, some, List, [], ◌∷◌, arith,
  text_eq_iff, Text, Dict, get, elem, keys_of_dict,
}
use mathlib.Core.List.{Memᴰ}
use mathlib.Core.List.Memᴰ
use yoe.Common.Worklist.{Search}
use yoe.Common.Worklist.Step.{unseen_le}
use yoe.Common.Worklist.Reach.{Reaches, starts, follows, run_ends, run-Reaches}
use yoe.Starlark.Units.{PackageUnit, runtime_deps_for_distro}
use yoe.Resolve.Edges.{is_some, build_edge, unit_runtime_deps, append_runtime_closure_of_deps}

elem-keys_of_some :
    (units : Dict PackageUnit) (r : Text)
    → is_some (get r units) ≡ true
    → elem r (keys_of_dict units) ≡ true
unfolding get keys_of_dict elem
elem-keys_of_some [] r h = cc
elem-keys_of_some ((k, u) ∷ units) r h = ground (arith, elem-keys_of_some units r)

build_edge-known :
    (units : Dict PackageUnit) (self r x : Text)
    → build_edge units self r ≡ some x
    → elem x (keys_of_dict units) ≡ true
unfolding build_edge
build_edge-known units self r x h = ground (arith, elem-keys_of_some units r)

-- What is to be built before a unit: its dependencies, and the runtime dependencies of what is to be
-- built before it that have a unit in the view, but not the unit itself.
pub data Precedes (deps : List Text) (units : Dict PackageUnit) (self distro : Text)
    : Text → Type 0 where
  given : {x : Text} → elem x deps ≡ true → Precedes deps units self distro x
  runtime :
      {x y : Text} {u : PackageUnit}
      → Precedes deps units self distro x
      → get x units ≡ some u
      → Memᴰ y (runtime_deps_for_distro u distro)
      → y ≢ self
      → is_some (get y units) ≡ true
      → Precedes deps units self distro y

build_edge-some :
    (units : Dict PackageUnit) (self r x : Text)
    → build_edge units self r ≡ some x
    → (r ≡ x) × (x ≢ self) × (is_some (get x units) ≡ true)
unfolding build_edge
build_edge-some units self r x h = ground (arith, text_eq_iff r self)

build_edge-of_unit :
    (units : Dict PackageUnit) (self x : Text)
    → x ≢ self
    → is_some (get x units) ≡ true
    → build_edge units self x ≡ some x
unfolding build_edge
build_edge-of_unit units self x n h = ground (arith, text_eq_iff x self)

unit_runtime_deps-unit :
    (units : Dict PackageUnit) (distro x d : Text)
    → Memᴰ d (unit_runtime_deps units distro x)
    → (u : PackageUnit) × (get x units ≡ some u) × Memᴰ d (runtime_deps_for_distro u distro)
unfolding unit_runtime_deps
unit_runtime_deps-unit units distro x d m = elim (Option-cases (get x units)) [
  | inl e ↦ absurd (Memᴰ.not-nil (rw (e, unit_runtime_deps) at m))
  | inr (u, e) ↦ (u, e, rw (e, unit_runtime_deps) at m)
]

unit_runtime_deps-member :
    (units : Dict PackageUnit) (distro x d : Text) (u : PackageUnit)
    → get x units ≡ some u
    → Memᴰ d (runtime_deps_for_distro u distro)
    → Memᴰ d (unit_runtime_deps units distro x)
unfolding unit_runtime_deps
unit_runtime_deps-member units distro x d u e m = rw (e, unit_runtime_deps) m

module _ (deps : List Text) (units : Dict PackageUnit) (self distro : Text) where
  Precedes-of_Reaches :
      {x : Text}
      → Reaches (build_edge units self) (unit_runtime_deps units distro) deps x
      → Precedes deps units self distro x
  Precedes-of_Reaches (starts m) = given m
  Precedes-of_Reaches (follows {x} {y} {d} r m e) =
      let (u, found, listed) = unit_runtime_deps-unit units distro x d m in
      let (same, other, known) = build_edge-some units self d y e in
      runtime (Precedes-of_Reaches r) found
        (subst (λ t. Memᴰ t (runtime_deps_for_distro u distro)) same listed) other known

  Reaches-of_Precedes :
      {x : Text}
      → Precedes deps units self distro x
      → Reaches (build_edge units self) (unit_runtime_deps units distro) deps x
  Reaches-of_Precedes (given m) = starts m
  Reaches-of_Precedes (runtime {x} {y} {u} r found m other known) =
      follows (Reaches-of_Precedes r) (unit_runtime_deps-member units distro x y u found m)
        (build_edge-of_unit units self y other known)

-- `appendRuntimeClosureOfDeps` ends with a list that holds exactly what is to be built before the
-- unit: the given dependencies, and what they reach by runtime dependencies, other than the unit
-- itself, that have a unit in the view.
pub append_runtime_closure-Precedes :
    (deps : List Text) (units : Dict PackageUnit) (self distro : Text)
    → (out : List Text) × (append_runtime_closure_of_deps deps units self distro ≡ some out)
      × ((x : Text) → elem x out ≡ true ↔ Precedes deps units self distro x)
unfolding append_runtime_closure_of_deps
append_runtime_closure-Precedes deps units self distro =
    let first : Search = record { queue = deps; pending = deps } in
    let (out, ends) =
      run_ends (build_edge units self) (unit_runtime_deps units distro) deps (keys_of_dict units)
        (build_edge-known units self) (length (keys_of_dict units) + length deps) first
        (omega (arith, unseen_le deps (keys_of_dict units))) in
    let reach =
      run-Reaches (build_edge units self) (unit_runtime_deps units distro) deps _ out ends in
    (
      out,
      ends,
      λ x. (
        λ m. Precedes-of_Reaches deps units self distro ((reach x).0 m),
        λ n. (reach x).1 (Reaches-of_Precedes deps units self distro n),
      ),
    )
