-- ===== src/Starlark/Projects.antt =====
-- internal/starlark/types.go and loader.go: the project's catalog of units and its lookups. A map is
-- an association list, and Go's iteration over it is the list's order: what is proved for every list
-- holds for every order of iteration.
pub mod Best
use yoe.Common.{
  if◌then◌else◌, Result, ok, err, ltb_int, Bool, true, ◌&&◌, ◌||◌, Option, none, some, [], ◌∷◌,
  Text, codes, text_eq, Dict, get, elem,
}
use yoe.Starlark.Units.{PackageUnit}

pub record Project : Type 0 where
  pub units_by_module : Dict (Dict PackageUnit)
  pub distro_views : Dict (Dict PackageUnit)
  -- none where the views are not built yet
  pub provides_views : Option (Dict (Dict Text))
  pub default_distro : Text
  pub default_distro_override : Text
  pub prefer_modules : Dict (Dict Text)
  pub provides : Dict Text

-- `unitVisibleToDistro` and the closure walker's `visibleToDistro`.
unfoldable pub visible_to_distro : PackageUnit → Text → Bool
visible_to_distro u distro = text_eq distro [] || (text_eq u.distro [] || text_eq u.distro distro)

-- The loop over the modules that `AnyUnit` and `resolveForDistro` share: the unit of the highest
-- module index among those that pass the test.
unfoldable pub better_unit : Option PackageUnit → PackageUnit → Option PackageUnit
better_unit none u = some u
better_unit (some best) u = if ltb_int best.module_index u.module_index then some u else some best

unfoldable pub candidate :
    (PackageUnit → Bool) → Option PackageUnit → Option PackageUnit → Option PackageUnit
candidate test best none = best
candidate test best (some u) = if test u then better_unit best u else best

unfoldable pub best_unit :
    Text → (PackageUnit → Bool) → Option PackageUnit → Dict (Dict PackageUnit) → Option PackageUnit
best_unit name test best [] = best
best_unit name test best ((_, by_name) ∷ rest) =
    best_unit name test (candidate test best (get name by_name)) rest

unfoldable pub any_unit : Project → Text → Option PackageUnit
any_unit p name = best_unit name (λ _. true) none p.units_by_module

-- The pin of `resolveForDistro`: the unit of the pinned module, if it has a visible one.
unfoldable pub pinned_module : Project → Text → Text → Option Text
pinned_module p distro name = elim (get distro p.prefer_modules) [
  | none ↦ none
  | some pins ↦ elim (get name pins) [
    | none ↦ none
    | some m ↦ if text_eq m [] then none else some m
  ]
]

unfoldable pub unit_in_module : Project → Text → Text → Option PackageUnit
unit_in_module p m name = elim (get m p.units_by_module) [
  | none ↦ none
  | some by_name ↦ get name by_name
]

unfoldable pub pinned_unit : Project → Text → Text → Option PackageUnit
pinned_unit p distro name = elim (pinned_module p distro name) [
  | none ↦ none
  | some m ↦ elim (unit_in_module p m name) [
    | none ↦ none
    | some u ↦ if visible_to_distro u distro then some u else none
  ]
]

unfoldable pub resolve_for_distro : Project → Text → Text → Option PackageUnit
resolve_for_distro p distro name = elim (pinned_unit p distro name) [
  | some u ↦ some u
  | none ↦ best_unit name (λ u. visible_to_distro u distro) none p.units_by_module
]

unfoldable pub lookup_unit : Project → Text → Text → Option PackageUnit
lookup_unit p distro name = elim (get distro p.distro_views) [
  | some view ↦ elim (get name view) [ some u ↦ some u | none ↦ resolve_for_distro p distro name ]
  | none ↦ elim p.distro_views [ [] ↦ any_unit p name | _ ∷ _ ↦ none ]
]

-- The scan of `ResolveProvidesForDistro` that `ProvidesViews` replaces.
unfoldable pub provider_of : Text → Text → PackageUnit → Option Text
provider_of virtual distro u =
    if text_eq u.distro distro && elem virtual u.provides then some u.name else none

unfoldable pub scan_units : Text → Text → Dict PackageUnit → Option Text
scan_units virtual distro [] = none
scan_units virtual distro ((_, u) ∷ rest) = elim (provider_of virtual distro u) [
  | some name ↦ some name
  | none ↦ scan_units virtual distro rest
]

unfoldable pub scan_modules : Text → Text → Dict (Dict PackageUnit) → Option Text
scan_modules virtual distro [] = none
scan_modules virtual distro ((_, by_name) ∷ rest) = elim (scan_units virtual distro by_name) [
  | some name ↦ some name
  | none ↦ scan_modules virtual distro rest
]

-- The unit of that very name, if it is tagged for the distro.
unfoldable pub tagged_unit : Project → Text → Text → Option Text
tagged_unit p virtual distro = elim (lookup_unit p distro virtual) [
  | none ↦ none
  | some u ↦ if text_eq u.distro distro then some u.name else none
]

unfoldable pub tagged_provider : Project → Text → Text → Option Text
tagged_provider p virtual distro = elim p.provides_views [
  | none ↦ scan_modules virtual distro p.units_by_module
  | some views ↦ elim (get distro views) [ none ↦ none | some view ↦ get virtual view ]
]

-- `p.Provides[virtual]`: the empty text where there is none.
unfoldable pub global_provider : Project → Text → Text
global_provider p virtual = elim (get virtual p.provides) [ none ↦ [] | some name ↦ name ]

unfoldable pub resolve_provides_for_distro : Project → Text → Text → Text
resolve_provides_for_distro p [] distro = []
resolve_provides_for_distro p (c ∷ virtual) [] = global_provider p (c ∷ virtual)
resolve_provides_for_distro p (c ∷ virtual) (d ∷ distro) =
    elim (tagged_unit p (c ∷ virtual) (d ∷ distro)) [
      | some name ↦ name
      | none ↦ elim (tagged_provider p (c ∷ virtual) (d ∷ distro)) [
        | some name ↦ name
        | none ↦ global_provider p (c ∷ virtual)
      ]
    ]

pub data DistroError : Type 0 where
  no_project no_distro unit_not_found not_an_image : DistroError

abbrev pub first_named : Text → Text → Result DistroError Text
first_named [] [] = err no_distro
first_named [] (c ∷ s) = ok (c ∷ s)
first_named (c ∷ s) _ = ok (c ∷ s)

-- `EffectiveDistro`; a nil project is `none`.
unfoldable pub effective_distro : Option Project → Result DistroError Text
effective_distro none = err no_project
effective_distro (some p) = first_named p.default_distro_override p.default_distro

-- The variant of an image that `EffectiveDistroForImage` reads.
unfoldable pub image_variant : Project → Text → Option PackageUnit
image_variant p name = elim (first_named p.default_distro_override p.default_distro) [
  | err _ ↦ any_unit p name
  | ok distro ↦ elim (lookup_unit p distro name) [ some u ↦ some u | none ↦ any_unit p name ]
]

unfoldable pub image_distro : Project → PackageUnit → Result DistroError Text
image_distro p u =
    if text_eq u.class (codes "image")
    then elim u.distro [
      | [] ↦ first_named p.default_distro_override p.default_distro
      | c ∷ s ↦ ok (c ∷ s)
    ]
    else err not_an_image

unfoldable pub effective_distro_for_image : Option Project → Text → Result DistroError Text
effective_distro_for_image none name = err no_project
effective_distro_for_image (some p) name = elim (image_variant p name) [
  | none ↦ err unit_not_found
  | some u ↦ image_distro p u
]
