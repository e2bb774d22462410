-- ===== src/Starlark/Views/Cache.antt =====
-- The views are a cache of `resolveForDistro`.
use yoe.Common.{
  if◌then◌else◌, Bool-cases, Option-cases, ◌≡◌, refl, sym, ◌∙◌, inl, inr, true, none, some, List,
  [], ◌∷◌, arith, eq_of_text_eq, Text, text_eq, get-put, Dict, get, put, elem,
}
use mathlib.Core.List.{foldl}
use yoe.Starlark.Units.{PackageUnit}
use yoe.Starlark.Projects.{
  Project, resolve_for_distro, lookup_unit, pinned_unit, pinned_module, unit_in_module,
}
use yoe.Starlark.Views.{all_distros, all_names, add_to_view, view_of, build_distro_views}

module _ (p : Project) where
  IsSound : Text → Dict PackageUnit → Type 0
  IsSound distro view =
      (name : Text) (u : PackageUnit)
      → get name view ≡ some u
      → resolve_for_distro p distro name ≡ some u

  add_to_view-IsSound :
      (distro : Text) (view : Dict PackageUnit) (n : Text)
      → IsSound distro view
      → IsSound distro (add_to_view p distro view n)
  unfolding add_to_view IsSound
  add_to_view-IsSound distro view n h = elim (Option-cases (resolve_for_distro p distro n)) [
    | inl e ↦ rw (e, add_to_view) h
    | inr (v, e) ↦
        rw (e, add_to_view)
          (λ name u g. elim (Bool-cases (text_eq n name)) [
            | inl same ↦
                let stored : some v ≡ some u = rw (get-put n name v view, same) at g in
                rw (← eq_of_text_eq n name same) (e ∙ stored)
            | inr other ↦ h name u (rw (get-put n name v view, other) at g)
          ])
  ]

  view_from-IsSound :
      (distro : Text) (names : List Text) (view : Dict PackageUnit)
      → IsSound distro view
      → IsSound distro (foldl (add_to_view p distro) view names)
  view_from-IsSound distro [] view h = h
  view_from-IsSound distro (n ∷ names) view h =
      view_from-IsSound distro names (add_to_view p distro view n)
        (add_to_view-IsSound distro view n h)

  view_of-IsSound : (distro : Text) → IsSound distro (view_of p distro)
  unfolding view_of IsSound get
  view_of-IsSound distro = view_from-IsSound distro (all_names p.units_by_module) [] (λ n u e. cc)

  abbrev add_view : Dict (Dict PackageUnit) → Text → Dict (Dict PackageUnit)
  add_view views distro = put distro (view_of p distro) views

  get-views :
      (distros : List Text) (views : Dict (Dict PackageUnit)) (distro : Text)
      → get distro (foldl add_view views distros)
        ≡ (if elem distro distros then some (view_of p distro) else get distro views)
  unfolding elem
  get-views [] views distro = refl
  get-views (d ∷ distros) views distro =
      get-views distros (add_view views d) distro
      ∙ rw (get-put d distro (view_of p d) views) (elim (Bool-cases (text_eq d distro)) [
        | inl same ↦ rw (same, eq_of_text_eq d distro same) (ground arith)
        | inr other ↦ rw other
      ])

  -- The project once its views are built.
  abbrev pub with_views : Project
  with_views = record p { distro_views = build_distro_views p }

  resolve-with_views :
      (distro name : Text)
      → resolve_for_distro with_views distro name ≡ resolve_for_distro p distro name
  unfolding resolve_for_distro pinned_unit pinned_module unit_in_module
  resolve-with_views distro name = refl

  get-build_distro_views :
      (distro : Text)
      → get distro (build_distro_views p)
        ≡ (if elem distro (all_distros p) then some (view_of p distro) else none)
  unfolding build_distro_views get
  get-build_distro_views distro = get-views (all_distros p) [] distro

  -- Once the views are built, `LookupUnit` answers for every distro that the project knows what
  -- `resolveForDistro` would, whether the view holds the name or not.
  pub lookup_unit-with_views :
      (distro name : Text)
      → elem distro (all_distros p) ≡ true
      → lookup_unit with_views distro name ≡ resolve_for_distro p distro name
  unfolding lookup_unit
  lookup_unit-with_views distro name known =
      let stored : get distro (build_distro_views p) ≡ some (view_of p distro) =
        rw (get-build_distro_views distro, known) refl in
      elim (Option-cases (get name (view_of p distro))) [
        | inl e ↦ rw (stored, lookup_unit) (rw e (resolve-with_views distro name))
        | inr (u, e) ↦
            rw (stored, lookup_unit)
              (rw e (sym (unfold IsSound in view_of-IsSound distro name u e)))
      ]
