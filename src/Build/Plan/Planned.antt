-- ===== src/Build/Plan/Planned.antt =====
-- Every unit of the order has a plan, by the options and the cache.
use yoe.Common.{
  Bool-cases, Option-cases, ◌≡◌, refl, ◌∙◌, ◌≢◌, ◌↔◌, ◌⊎◌, inl, inr, Bool, true, false, ◌&&◌, ◌||◌,
  Option, none, some, List, [], ◌∷◌, arith, text_eq_refl, eq_of_text_eq, text_eq_iff, Text, codes,
  text_eq, get-put, Dict, get, put, elem,
}
use yoe.Starlark.Units.{PackageUnit}
use yoe.Starlark.Projects.{Project, lookup_unit}
use yoe.Build.Plan.{
  Options, UnitPlan, plan_unit, plan_units, reuse_cache, scope_dir, is_empty, hash_of,
}

module _ (cache_valid : PackageUnit → Text → Text → Bool) (p : Project) (hashes : Dict Text)
    (opts : Options) (requested : List Text) where
  -- A unit is to be built whatever the cache holds: the options say so, and the unit is named or none
  -- is.
  abbrev pub IsForced : Text → Type 0
  IsForced x =
      ((opts.force ≡ true) ⊎ (opts.clean ≡ true)) × ((requested ≡ []) ⊎ (elem x requested ≡ true))

  -- A plan of a unit of this name.
  pub record IsPlan (x : Text) (plan : UnitPlan) : Type 0 where
    pub looked_up : lookup_unit p opts.effective_distro x ≡ some plan.unit
    pub hashed : (get x hashes ≡ some plan.hash) ⊎ (get x hashes ≡ none) × (plan.hash ≡ [])
    pub for_machine : plan.unit.scope ≡ codes "machine" → plan.scope_dir ≡ opts.machine
    pub for_all : plan.unit.scope ≡ codes "noarch" → plan.scope_dir ≡ codes "noarch"
    pub for_arch :
        plan.unit.scope ≢ codes "machine"
        → plan.unit.scope ≢ codes "noarch"
        → plan.scope_dir ≡ opts.arch
    pub reused :
        reuse_cache plan ≡ true
        ↔ (cache_valid plan.unit plan.scope_dir plan.hash ≡ true)
          × (opts.no_cache ≡ false)
          × ¬ IsForced x

  hash_of-cases :
      (x : Text)
      → (get x hashes ≡ some (hash_of hashes x)) ⊎ (get x hashes ≡ none) × (hash_of hashes x ≡ [])
  hash_of-cases x = elim (Option-cases (get x hashes)) [
    | inl e ↦ rw (e, hash_of) (inr (refl, refl))
    | inr (h, e) ↦ rw (e, hash_of) (inl refl)
  ]

  is_empty_iff : (xs : List Text) → is_empty xs ≡ true ↔ (xs ≡ [])
  is_empty_iff [] = (λ _. refl, λ _. refl)
  is_empty_iff (y ∷ xs) = (λ e. cc, λ e. cc)

  IsForced-iff :
      (x : Text)
      → ((opts.force || opts.clean) && (is_empty requested || elem x requested)) ≡ true ↔ IsForced x
  IsForced-iff x = ground (arith, is_empty_iff requested)

  scope_dir-arch :
      (u : PackageUnit)
      → u.scope ≢ codes "machine"
      → u.scope ≢ codes "noarch"
      → scope_dir u opts.arch opts.machine ≡ opts.arch
  unfolding scope_dir
  scope_dir-arch u m n =
      ground (arith, text_eq_iff u.scope (codes "machine"), text_eq_iff u.scope (codes "noarch"))

  plan_unit-IsPlan :
      (x : Text) (u : PackageUnit)
      → lookup_unit p opts.effective_distro x ≡ some u
      → IsPlan x (plan_unit cache_valid opts hashes requested x u)
  unfolding plan_unit scope_dir reuse_cache text_eq
  plan_unit-IsPlan x u e = record {
    looked_up = e;
    hashed = hash_of-cases x;
    for_machine = λ s. rw s refl;
    for_all = λ s. rw s refl;
    for_arch = scope_dir-arch u;
    reused = ground (arith, IsForced-iff x);
  }

  abbrev pub IsPlanned : List Text → Dict UnitPlan → Option (Dict UnitPlan) → Type 0
  IsPlanned order plans (some out) =
      ((x : Text)
        → elem x order ≡ true
        → (plan : UnitPlan) × (get x out ≡ some plan) × IsPlan x plan)
      × ((x : Text) → elem x order ≡ false → get x out ≡ get x plans)
  IsPlanned order plans none =
      (x : Text) × (elem x order ≡ true) × (lookup_unit p opts.effective_distro x ≡ none)

  IsPlanned-next :
      (name : Text) (order : List Text) (plans : Dict UnitPlan) (u : PackageUnit)
      → lookup_unit p opts.effective_distro name ≡ some u
      → (r : Option (Dict UnitPlan))
      → IsPlanned order (put name (plan_unit cache_valid opts hashes requested name u) plans) r
      → IsPlanned (name ∷ order) plans r
  unfolding elem
  IsPlanned-next name order plans u e none (x, m, l) = (x, ground (arith, m), l)
  IsPlanned-next name order plans u e (some out) (later, others) = (
    λ x m. elim (Bool-cases (elem x order)) [
      | inl k ↦ later x k
      | inr k ↦
          let same : name ≡ x = eq_of_text_eq name x (ground (arith, m, k)) in
          let plan = plan_unit cache_valid opts hashes requested name u in
          (
            plan,
            others x k ∙ get-put name x plan plans ∙ rw (same, text_eq_refl x) refl,
            rw (← same) (plan_unit-IsPlan name u e),
          )
    ],
    λ x m.
        others x (ground (arith, m))
        ∙ get-put name x (plan_unit cache_valid opts hashes requested name u) plans
        ∙ (let other : text_eq name x ≡ false = ground (arith, m) in rw other refl),
  )

  -- `planUnits` plans every name of the order, and no other name: the unit is the one that `LookupUnit`
  -- returns, the hash is the unit's, if it has one, and the directory is the machine's, the one of all
  -- machines or the architecture's, as the unit's scope says. The cache is reused exactly where it is
  -- valid for these, is not switched off, and the build is not forced: forcing and cleaning concern
  -- the named units, or all where none is named. `planUnits` fails only at a name that has no unit.
  pub plan_units-IsPlanned :
      (order : List Text) (plans : Dict UnitPlan)
      → IsPlanned order plans (plan_units cache_valid p order hashes opts requested plans)
  unfolding plan_units elem
  plan_units-IsPlanned [] plans = (λ x m. absurd (cc), λ x m. refl)
  plan_units-IsPlanned (name ∷ order) plans =
      elim (Option-cases (lookup_unit p opts.effective_distro name)) [
        | inl e ↦ rw (e, plan_units) (name, rw (text_eq_refl name) refl, e)
        | inr (u, e) ↦
            let after = put name (plan_unit cache_valid opts hashes requested name u) plans in
            rw (e, plan_units)
              (IsPlanned-next name order plans u e
                (plan_units cache_valid p order hashes opts requested after)
                (plan_units-IsPlanned order after))
      ]
