-- ===== src/Resolve/Runtime/Catalog.antt =====
-- A unit that a lookup returns is in the catalog under that name.
use yoe.Common.{
  Bool-cases, Option-cases, some_inj, elem-append, ◌≡◌, refl, sym, ap, inl, inr, Bool, true, false,
  ◌||◌, Option, none, some, [], ◌∷◌, arith, Text, text_eq, Dict, get, elem, keys_of_dict,
}
use mathlib.Core.List.{Memᴰ}
use mathlib.Core.List.Memᴰ
use yoe.Starlark.Units.{PackageUnit}
use yoe.Starlark.Projects.{
  Project, lookup_unit, any_unit, resolve_for_distro, unit_in_module, pinned_unit,
  visible_to_distro,
}
use yoe.Starlark.Projects.Best.{
  IsCandidate, IsBest, any_unit-IsBest, best_unit-none, pinned_unit-some,
}
use yoe.Starlark.Views.{all_names}
use yoe.Resolve.Runtime.{catalog}

elem-keys_of_get {ℓ} :
    {V : Type ℓ} (k : Text) (m : Dict V) (v : V) → get k m ≡ some v → elem k (keys_of_dict m) ≡ true
unfolding get keys_of_dict elem
elem-keys_of_get k [] v h = cc
elem-keys_of_get k ((j, w) ∷ m) v h = elim (Bool-cases (text_eq j k)) [
  | inl e ↦ rw e
  | inr e ↦ rw e (elem-keys_of_get k m v (rw (e, get) at h))
]

mem_of_get {ℓ} :
    {V : Type ℓ} (k : Text) (m : Dict V) (v : V) → get k m ≡ some v → (j : Text) × Memᴰ (j, v) m
unfolding get
mem_of_get k [] v h = cc
mem_of_get k ((j, w) ∷ m) v h = elim (Bool-cases (text_eq j k)) [
  | inl e ↦ let same : w ≡ v = some_inj (rw (e, get) at h) in (j, Memᴰ.head (λ i. (j, sym same i)))
  | inr e ↦ let (i, l) = mem_of_get k m v (rw (e, get) at h) in (i, Memᴰ.tail l)
]

elem-all_names :
    (k h : Text) (by_name : Dict PackageUnit) (ms : Dict (Dict PackageUnit)) (u : PackageUnit)
    → Memᴰ (h, by_name) ms
    → get k by_name ≡ some u
    → elem k (all_names ms) ≡ true
unfolding all_names
elem-all_names k h by_name [] u m g = absurd (Memᴰ.not-nil m)
elem-all_names k h by_name ((j, other) ∷ ms) u m g =
    rw (elem-append k (keys_of_dict other) (all_names ms)) (elim (Memᴰ.cases_cons m) [
      | inl e ↦
          let same : by_name ≡ other = ap (λ (q : Text × Dict PackageUnit). q.1) e in
          rw (elem-keys_of_get k other u (rw same at g)) refl
      | inr l ↦ rw (elem-all_names k h by_name ms u l g) (or_true (elem k (keys_of_dict other)))
    ])
  where
    or_true : (b : Bool) → (b || true) ≡ true
    or_true true = refl
    or_true false = refl

elem-of_candidate :
    (name : Text) (test : PackageUnit → Bool) (ms : Dict (Dict PackageUnit)) (u : PackageUnit)
    → IsCandidate name test ms u
    → elem name (all_names ms) ≡ true
elem-of_candidate name test ms u c = elem-all_names name c.home c.by_name ms u c.listed c.found

elem-of_best :
    (name : Text) (test : PackageUnit → Bool) (ms : Dict (Dict PackageUnit))
    (o : Option PackageUnit) (u : PackageUnit)
    → IsBest name test ms o
    → o ≡ some u
    → elem name (all_names ms) ≡ true
elem-of_best name test ms none u b e = cc
elem-of_best name test ms (some v) u b e = elem-of_candidate name test ms v b.0

elem-of_unit_in_module :
    (p : Project) (m name : Text) (v : PackageUnit)
    → unit_in_module p m name ≡ some v
    → elem name (all_names p.units_by_module) ≡ true
unfolding unit_in_module
elem-of_unit_in_module p m name v r = elim (Option-cases (get m p.units_by_module)) [
  | inl e ↦ cc (rw (e, unit_in_module) at r)
  | inr (by_name, e) ↦
      let (j, l) = mem_of_get m p.units_by_module by_name e in
      elem-all_names name j by_name p.units_by_module v l (rw (e, unit_in_module) at r)
]

elem-of_resolve :
    (p : Project) (distro name : Text) (u : PackageUnit)
    → resolve_for_distro p distro name ≡ some u
    → elem name (all_names p.units_by_module) ≡ true
unfolding resolve_for_distro
elem-of_resolve p distro name u h = elim (Option-cases (pinned_unit p distro name)) [
  | inr (v, e) ↦
      let w = pinned_unit-some p distro name v e in
      elem-of_unit_in_module p w.pin name v w.registered
  | inl e ↦
      elem-of_best name (λ v. visible_to_distro v distro) p.units_by_module _ u
        (best_unit-none name (λ v. visible_to_distro v distro) p.units_by_module)
        (rw (e, resolve_for_distro) at h)
]

or_left : (a b : Bool) → a ≡ true → (a || b) ≡ true
or_left a b h = ground arith

or_right : (a b : Bool) → b ≡ true → (a || b) ≡ true
or_right a b h = ground arith

in_units :
    (p : Project) (name : Text)
    → elem name (all_names p.units_by_module) ≡ true
    → elem name (catalog p) ≡ true
in_units p name h =
    rw (elem-append name (all_names p.distro_views) (all_names p.units_by_module)) (or_right _ _ h)

-- A name that `LookupUnit` answers is in the catalog.
pub elem-catalog_of_lookup :
    (p : Project) (distro name : Text) (u : PackageUnit)
    → lookup_unit p distro name ≡ some u
    → elem name (catalog p) ≡ true
unfolding lookup_unit
elem-catalog_of_lookup p distro name u h = elim (Option-cases (get distro p.distro_views)) [
  | inr (view, e) ↦ elim (Option-cases (get name view)) [
    | inr (v, f) ↦
        let (j, l) = mem_of_get distro p.distro_views view e in
        rw (elem-append name (all_names p.distro_views) (all_names p.units_by_module))
          (or_left _ _ (elem-all_names name j view p.distro_views v l f))
    | inl f ↦ in_units p name (elem-of_resolve p distro name u (rw (e, lookup_unit, f) at h))
  ]
  | inl e ↦ no_view p.distro_views (rw (e, lookup_unit) at h)
]
  where
    no_view :
        (views : Dict (Dict PackageUnit))
        → (elim views as (λ _. Option PackageUnit) [ [] ↦ any_unit p name | _ ∷ _ ↦ none ]) ≡ some u
        → elem name (catalog p) ≡ true
    no_view [] a =
        in_units p name
          (elem-of_best name (λ _. true) p.units_by_module _ u (any_unit-IsBest p name) a)
    no_view (v ∷ vs) a = cc
