-- ===== src/Starlark/Projects/Best.antt =====
-- `resolveForDistro` returns a visible unit of the name, the pinned one if there is a pin that can be
-- met, and otherwise one that no visible unit outranks.
use yoe.Common.{
  Bool-cases, Option-cases, if_elim, some_inj, ltb_int, IsAtMost, IsAtMost-refl, IsAtMost-trans,
  IsAtMost-of_less, IsAtMost-of_not_less, ◌≡◌, refl, sym, ap, ◌∙◌, subst, ◌⊎◌, inl, inr, Bool, true,
  false, Option, none, some, [], ◌∷◌, ◌++◌, append-nil, append_assoc, Text, Dict, get,
}
use mathlib.Core.List.{Memᴰ}
use mathlib.Core.List.Memᴰ
use yoe.Starlark.Units.{PackageUnit}
use yoe.Starlark.Projects.{
  Project, visible_to_distro, better_unit, candidate, best_unit, any_unit, pinned_module,
  unit_in_module, pinned_unit, resolve_for_distro,
}

-- A module of the catalog registers a unit under a name, and the unit passes the test.
pub record IsCandidate (name : Text) (test : PackageUnit → Bool) (ms : Dict (Dict PackageUnit))
    (u : PackageUnit) : Type 0 where
  pub home : Text
  pub by_name : Dict PackageUnit
  pub listed : Memᴰ (home, by_name) ms
  pub found : get name by_name ≡ some u
  pub passes : test u ≡ true

-- `o` is a candidate that none outranks, or there is no candidate.
abbrev pub IsBest :
    Text → (PackageUnit → Bool) → Dict (Dict PackageUnit) → Option PackageUnit → Type 0
IsBest name test ms none = (u : PackageUnit) → ¬ IsCandidate name test ms u
IsBest name test ms (some b) =
    IsCandidate name test ms b
    × ((u : PackageUnit) → IsCandidate name test ms u → IsAtMost u.module_index b.module_index)

module _ (name : Text) (test : PackageUnit → Bool) where
  snoc_left :
      (ms : Dict (Dict PackageUnit)) (h : Text) (by_name : Dict PackageUnit) {u : PackageUnit}
      → IsCandidate name test ms u
      → IsCandidate name test (ms ++ (h, by_name) ∷ []) u
  snoc_left ms h by_name c = record {
    home = c.home;
    by_name = c.by_name;
    listed = Memᴰ.append_left _ c.listed;
    found = c.found;
    passes = c.passes;
  }

  snoc_cases :
      (ms : Dict (Dict PackageUnit)) (h : Text) (by_name : Dict PackageUnit) (u : PackageUnit)
      → IsCandidate name test (ms ++ (h, by_name) ∷ []) u
      → IsCandidate name test ms u ⊎ (get name by_name ≡ some u) × (test u ≡ true)
  snoc_cases ms h by_name u c = elim (Memᴰ.append_cases ms c.listed) [
    | inl old ↦ inl (record {
      home = c.home;
      by_name = c.by_name;
      listed = old;
      found = c.found;
      passes = c.passes;
    })
    | inr new ↦
        let same : c.by_name ≡ by_name =
          ap (λ (q : Text × Dict PackageUnit). q.1) (Memᴰ.eq_of_singleton new) in
        inr (rw (← same) c.found, c.passes)
  ]

  IsBest-keep :
      (ms : Dict (Dict PackageUnit)) (h : Text) (by_name : Dict PackageUnit)
      (o : Option PackageUnit)
      → ((u : PackageUnit) → get name by_name ≡ some u → test u ≡ false)
      → IsBest name test ms o
      → IsBest name test (ms ++ (h, by_name) ∷ []) o
  IsBest-keep ms h by_name none bad b =
      λ u c. elim (snoc_cases ms h by_name u c) [ inl old ↦ b u old | inr (f, t) ↦ cc (bad u f) ]
  IsBest-keep ms h by_name (some w) bad b = (
    snoc_left ms h by_name b.0,
    λ u c. elim (snoc_cases ms h by_name u c) [ inl old ↦ b.1 u old | inr (f, t) ↦ cc (bad u f) ],
  )

  module _ (ms : Dict (Dict PackageUnit)) (h : Text) (by_name : Dict PackageUnit) (v : PackageUnit)
      (f : get name by_name ≡ some v) (t : test v ≡ true) where
    last : IsCandidate name test (ms ++ (h, by_name) ∷ []) v
    last = record {
      home = h;
      by_name = by_name;
      listed = Memᴰ.append_right ms (Memᴰ.head refl);
      found = f;
      passes = t;
    }

    IsAtMost-new :
        (u : PackageUnit) → get name by_name ≡ some u → IsAtMost u.module_index v.module_index
    IsAtMost-new u g =
        let same : u ≡ v = some_inj (sym g ∙ f) in rw same (IsAtMost-refl v.module_index)

    IsBest-better :
        (o : Option PackageUnit)
        → IsBest name test ms o
        → IsBest name test (ms ++ (h, by_name) ∷ []) (better_unit o v)
    unfolding better_unit
    IsBest-better none b = (
      last,
      λ u c. elim (snoc_cases ms h by_name u c) [
        | inl old ↦ absurd (b u old)
        | inr (g, _) ↦ IsAtMost-new u g
      ],
    )
    IsBest-better (some w) b =
        if_elim (IsBest name test (ms ++ (h, by_name) ∷ [])) (ltb_int w.module_index v.module_index)
          (λ lower. (
            last,
            λ u c. elim (snoc_cases ms h by_name u c) [
              | inl old ↦
                  IsAtMost-trans u.module_index w.module_index v.module_index (b.1 u old)
                    (IsAtMost-of_less w.module_index v.module_index lower)
              | inr (g, _) ↦ IsAtMost-new u g
            ],
          ))
          (λ higher. (
            snoc_left ms h by_name b.0,
            λ u c. elim (snoc_cases ms h by_name u c) [
              | inl old ↦ b.1 u old
              | inr (g, _) ↦
                  IsAtMost-trans u.module_index v.module_index w.module_index (IsAtMost-new u g)
                    (IsAtMost-of_not_less w.module_index v.module_index higher)
            ],
          ))

  candidate-IsBest :
      (ms : Dict (Dict PackageUnit)) (h : Text) (by_name : Dict PackageUnit)
      (o : Option PackageUnit)
      → IsBest name test ms o
      → IsBest name test (ms ++ (h, by_name) ∷ []) (candidate test o (get name by_name))
  unfolding candidate
  candidate-IsBest ms h by_name o b = elim (Option-cases (get name by_name)) [
    | inl e ↦ rw e (IsBest-keep ms h by_name o (λ u f. cc) b)
    | inr (v, e) ↦ rw e (elim (Bool-cases (test v)) [
      | inl t ↦ rw t (IsBest-better ms h by_name v e t o b)
      | inr t ↦ rw t (
          IsBest-keep ms h by_name o (λ u f. let same : u ≡ v = some_inj (sym f ∙ e) in rw same t)
            b)
    ])
  ]

  best_unit-IsBest :
      (rest ms : Dict (Dict PackageUnit)) (o : Option PackageUnit)
      → IsBest name test ms o
      → IsBest name test (ms ++ rest) (best_unit name test o rest)
  unfolding best_unit
  best_unit-IsBest [] ms o b = rw (append-nil ms) b
  best_unit-IsBest ((h, by_name) ∷ rest) ms o b =
      subst
        (λ l. IsBest name test l (best_unit name test (candidate test o (get name by_name)) rest))
        (append_assoc ms ((h, by_name) ∷ []) rest)
        (best_unit-IsBest rest (ms ++ (h, by_name) ∷ []) (candidate test o (get name by_name))
          (candidate-IsBest ms h by_name o b))

  pub best_unit-none :
      (ms : Dict (Dict PackageUnit)) → IsBest name test ms (best_unit name test none ms)
  best_unit-none ms = best_unit-IsBest ms [] none (λ u c. Memᴰ.not-nil c.listed)

-- `AnyUnit` returns a unit of the name that no other of the name outranks, and none exactly where no
-- module registers the name.
pub any_unit-IsBest :
    (p : Project) (name : Text) → IsBest name (λ _. true) p.units_by_module (any_unit p name)
unfolding any_unit
any_unit-IsBest p name = best_unit-none name (λ _. true) p.units_by_module

-- A pin that can be met: the pinned module registers a visible unit of the name.
pub record IsPinned (p : Project) (distro name : Text) (u : PackageUnit) : Type 0 where
  pub pin : Text
  pub pinned : pinned_module p distro name ≡ some pin
  pub registered : unit_in_module p pin name ≡ some u
  pub visible : visible_to_distro u distro ≡ true

pub pinned_unit-some :
    (p : Project) (distro name : Text) (u : PackageUnit)
    → pinned_unit p distro name ≡ some u
    → IsPinned p distro name u
unfolding pinned_unit
pinned_unit-some p distro name u h = elim (Option-cases (pinned_module p distro name)) [
  | inl e ↦ cc (rw (e, pinned_unit) at h)
  | inr (m, e) ↦ elim (Option-cases (unit_in_module p m name)) [
    | inl f ↦ cc (rw (e, pinned_unit, f) at h)
    | inr (v, f) ↦ elim (Bool-cases (visible_to_distro v distro)) [
      | inl g ↦
          let same : v ≡ u = some_inj (rw (e, pinned_unit, f, g) at h) in
          record {
            pin = m;
            pinned = e;
            registered = f ∙ ap some same;
            visible = subst (λ w. visible_to_distro w distro ≡ true) same g;
          }
      | inr g ↦ cc (rw (e, pinned_unit, f, g) at h)
    ]
  ]
]

pinned_unit-of_IsPinned :
    (p : Project) (distro name : Text) (u : PackageUnit)
    → IsPinned p distro name u
    → pinned_unit p distro name ≡ some u
unfolding pinned_unit
pinned_unit-of_IsPinned p distro name u w =
    rw (w.pinned, pinned_unit) (rw (w.registered) (rw (w.visible)))

-- `resolveForDistro` returns the unit of a pin that can be met. Where there is none it returns a unit
-- visible to the distro that no other visible unit of the name outranks, or nothing if none is
-- visible.
pub resolve_for_distro-IsBest :
    (p : Project) (distro name : Text)
    → ((u : PackageUnit) → IsPinned p distro name u → resolve_for_distro p distro name ≡ some u)
      × (((u : PackageUnit) → ¬ IsPinned p distro name u)
          → IsBest name
              (λ u. visible_to_distro u distro)
              p.units_by_module
              (resolve_for_distro p distro name))
unfolding resolve_for_distro
resolve_for_distro-IsBest p distro name = (
  λ u w. rw (pinned_unit-of_IsPinned p distro name u w, resolve_for_distro),
  λ free. elim (Option-cases (pinned_unit p distro name)) [
    | inl e ↦
        rw (e, resolve_for_distro)
          (best_unit-none name (λ u. visible_to_distro u distro) p.units_by_module)
    | inr (u, e) ↦ absurd (free u (pinned_unit-some p distro name u e))
  ],
)
