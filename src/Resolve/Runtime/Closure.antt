-- ===== src/Resolve/Runtime/Closure.antt =====
-- `RuntimeClosure` returns exactly the units that the roots need at run time.
use yoe.Common.{
  if◌then◌else◌, Bool-cases, Option-cases, some_inj, length, ok, ◌≡◌, refl, sym, ap, subst, ◌≢◌,
  ◌↔◌, ◌⊎◌, inl, inr, Bool, true, false, ◌||◌, Option, none, some, List, [], ◌∷◌, ◌++◌, arith,
  text_eq_iff, Text, text_eq, elem,
}
use mathlib.Core.List.{Memᴰ}
use mathlib.Core.List.Memᴰ
use yoe.Common.Worklist.{Search, visit, visit_all, run}
use yoe.Common.Worklist.Step.{unseen_le, visit_all-Adds, visit_all-work}
use yoe.Common.Worklist.Reach.{Reaches, starts, follows, run_ends, run-Reaches}
use yoe.Starlark.Units.{PackageUnit, runtime_deps_for_distro}
use yoe.Starlark.Projects.{Project, lookup_unit, resolve_provides_for_distro}
use yoe.Resolve.Runtime.{
  or_itself, visible_name, runtime_deps_of, catalog, closure_from, runtime_closure,
}
use yoe.Resolve.Runtime.Catalog.{elem-catalog_of_lookup}

-- The unit that a dependency leads to: what provides it for the distro, or else the unit of that
-- name, if the catalog has it and the distro may see it.
pub record LeadsTo (p : Project) (distro raw x : Text) : Type 0 where
  pub routed : or_itself raw (resolve_provides_for_distro p raw distro) ≡ x
  pub unit : PackageUnit
  pub found : lookup_unit p distro x ≡ some unit
  pub visible : (unit.distro ≡ []) ⊎ (unit.distro ≡ distro)

-- What a list of roots needs at run time: the units that the roots lead to, and those that the
-- runtime dependencies of needed units lead to.
pub data Needs (p : Project) (distro : Text) (roots : List Text) : Text → Type 0 where
  root : {r x : Text} → Memᴰ r roots → LeadsTo p distro r x → Needs p distro roots x
  dep :
      {x d y : Text} {u : PackageUnit}
      → Needs p distro roots x
      → lookup_unit p distro x ≡ some u
      → Memᴰ d (runtime_deps_for_distro u distro)
      → LeadsTo p distro d y
      → Needs p distro roots y

visible_name-LeadsTo :
    (p : Project) (distro raw x : Text)
    → visible_name p distro raw ≡ some x
    → LeadsTo p distro raw x
unfolding visible_name
visible_name-LeadsTo p distro raw x h =
    let name = or_itself raw (resolve_provides_for_distro p raw distro) in
    elim (Option-cases (lookup_unit p distro name)) [
      | inl e ↦ cc (rw (e, visible_name) at h)
      | inr (u, e) ↦ elim (Bool-cases (text_eq u.distro [] || text_eq u.distro distro)) [
        | inl v ↦
            let same : name ≡ x = some_inj (rw (e, visible_name, v) at h) in
            record {
              routed = same;
              unit = u;
              found = subst (λ n. lookup_unit p distro n ≡ some u) same e;
              visible = ground (arith, text_eq_iff u.distro [], text_eq_iff u.distro distro);
            }
        | inr v ↦ cc (rw (e, visible_name, v) at h)
      ]
    ]

visible_name-of_LeadsTo :
    (p : Project) (distro raw x : Text)
    → LeadsTo p distro raw x
    → visible_name p distro raw ≡ some x
unfolding visible_name
visible_name-of_LeadsTo p distro raw x l =
    let seen : (text_eq l.unit.distro [] || text_eq l.unit.distro distro) ≡ true =
      ground (arith, l.visible, text_eq_iff l.unit.distro [], text_eq_iff l.unit.distro distro) in
    rw (l.routed, visible_name) (rw (l.found, visible_name) (rw seen (ap some l.routed)))

runtime_deps_of-unit :
    (p : Project) (distro x d : Text)
    → Memᴰ d (runtime_deps_of p distro x)
    → (u : PackageUnit) × (lookup_unit p distro x ≡ some u)
      × Memᴰ d (runtime_deps_for_distro u distro)
unfolding runtime_deps_of
runtime_deps_of-unit p distro x d m = elim (Option-cases (lookup_unit p distro x)) [
  | inl e ↦ absurd (Memᴰ.not-nil (rw (e, runtime_deps_of) at m))
  | inr (u, e) ↦ (u, e, rw (e, runtime_deps_of) at m)
]

runtime_deps_of-member :
    (p : Project) (distro x d : Text) (u : PackageUnit)
    → lookup_unit p distro x ≡ some u
    → Memᴰ d (runtime_deps_for_distro u distro)
    → Memᴰ d (runtime_deps_of p distro x)
unfolding runtime_deps_of
runtime_deps_of-member p distro x d u e m = rw (e, runtime_deps_of) m

visible_name-catalog :
    (p : Project) (distro raw x : Text)
    → visible_name p distro raw ≡ some x
    → elem x (catalog p) ≡ true
unfolding visible_name
visible_name-catalog p distro raw x h =
    let name = or_itself raw (resolve_provides_for_distro p raw distro) in
    elim (Option-cases (lookup_unit p distro name)) [
      | inl e ↦ cc (rw (e, visible_name) at h)
      | inr (u, e) ↦
          let same : name ≡ x = only _ name (rw (e, visible_name) at h) in
          rw (← same) (elem-catalog_of_lookup p distro name u e)
    ]
  where
    only : (b : Bool) (n : Text) → (if b then some n else none) ≡ some x → n ≡ x
    only true n e = some_inj e
    only false n e = cc

module _ (pick : Text → Option Text) (deps : Text → List Text) where
  visit_same :
      (s : Search) (d : Text)
      → s.queue ≡ s.pending
      → (visit pick deps s d).queue ≡ (visit pick deps s d).pending
  unfolding visit
  visit_same s d h = elim (Option-cases (pick d)) [
    | inl e ↦ rw (e, visit) h
    | inr (x, e) ↦
        rw (e, visit)
          (elim (Bool-cases (elem x s.queue)) [
            | inl m ↦ rw m h
            | inr m ↦ rw m (ap (λ q. q ++ (x ∷ [])) h)
          ])
  ]

  visit_all_same :
      (s : Search) (ds : List Text)
      → s.queue ≡ s.pending
      → (visit_all pick deps s ds).queue ≡ (visit_all pick deps s ds).pending
  unfolding visit_all
  visit_all_same s [] e = e
  visit_all_same s (d ∷ ds) e = visit_all_same (visit pick deps s d) ds (visit_same s d e)

module _ (p : Project) (distro : Text) (roots : List Text) where
  abbrev pick : Text → Option Text
  pick = visible_name p distro

  abbrev deps : Text → List Text
  deps = runtime_deps_of p distro

  abbrev blank : Search
  blank = record { queue = []; pending = [] }

  abbrev first : Search
  first = visit_all pick deps blank roots

  closure_from_ends : (out : List Text) × (closure_from p roots distro ≡ some out)
  unfolding closure_from
  closure_from_ends =
      let names = catalog p in
      let known = visible_name-catalog p distro in
      run_ends pick deps first.queue names known (length names) first
        (omega (arith, visit_all-work pick deps names known blank roots, unseen_le [] names))

  Needs-of_Reaches : {x : Text} → Reaches pick deps first.queue x → Needs p distro roots x
  Needs-of_Reaches (starts {x} m) = elim ((visit_all-Adds pick deps blank roots).sound x m) [
    | inl h ↦ absurd (no_elem x h)
    | inr (r, l, e) ↦ root l (visible_name-LeadsTo p distro r x e)
  ]
    where
      no_elem : (x : Text) → elem x [] ≡ true → ⊥
      no_elem x h = unfold elem in cc
  Needs-of_Reaches (follows {x} {y} {d} r m e) =
      let (u, found, listed) = runtime_deps_of-unit p distro x d m in
      dep (Needs-of_Reaches r) found listed (visible_name-LeadsTo p distro d y e)

  Reaches-of_Needs : {x : Text} → Needs p distro roots x → Reaches pick deps first.queue x
  Reaches-of_Needs (root {r} {x} l e) =
      starts
        ((visit_all-Adds pick deps blank roots).full r x l (visible_name-of_LeadsTo p distro r x e))
  Reaches-of_Needs (dep {x} {d} {y} {u} n e m l) =
      follows (Reaches-of_Needs n) (runtime_deps_of-member p distro x d u e m)
        (visible_name-of_LeadsTo p distro d y l)

  closure_from-Needs :
      (out : List Text)
      → closure_from p roots distro ≡ some out
      → (x : Text) → elem x out ≡ true ↔ Needs p distro roots x
  unfolding closure_from
  closure_from-Needs out h x =
      let same : first.queue ≡ first.pending = visit_all_same pick deps blank roots refl in
      let whole : ◌≡◌ {A = Search} first (record { queue = first.queue; pending = first.queue }) =
        λ i. record { queue = first.queue; pending = sym same i } in
      let reach =
        run-Reaches pick deps first.queue (length (catalog p)) out
          (subst (λ (s : Search). run pick deps (length (catalog p)) s ≡ some out) whole h) x in
      (λ m. Needs-of_Reaches (reach.0 m), λ n. reach.1 (Reaches-of_Needs n))

-- For a distro that is not empty, `RuntimeClosure` ends and returns exactly the units that the roots
-- need at run time: the roots and all that runtime dependencies lead to, each through the provides
-- of the distro, without the units that the distro may not see.
pub runtime_closure-Needs :
    (p : Project) (distro : Text) (roots : List Text)
    → distro ≢ []
    → (out : List Text) × (runtime_closure p roots distro ≡ ok out)
      × ((x : Text) → elem x out ≡ true ↔ Needs p distro roots x)
unfolding runtime_closure
runtime_closure-Needs p [] roots h = absurd (h refl)
runtime_closure-Needs p (c ∷ distro) roots h =
    let (out, ends) = closure_from_ends p (c ∷ distro) roots in
    (out, rw (ends, runtime_closure), closure_from-Needs p (c ∷ distro) roots out ends)
