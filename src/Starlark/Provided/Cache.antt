-- ===== src/Starlark/Provided/Cache.antt =====
-- internal/starlark/types.go: `ResolveProvidesForDistro` by the index of what the tagged units provide,
-- and by the scan over the units.
use yoe.Common.{
  if◌then◌else◌, Bool-cases, Option-cases, ◌≡◌, refl, sym, ap, ◌∙◌, ◌≢◌, inl, inr, Bool, true,
  false, ◌&&◌, Option, none, some, List, [], ◌∷◌, eq_of_text_eq, Text, text_eq, get-put, Dict, get,
  elem,
}
use mathlib.Core.List.{foldl}
use yoe.Starlark.Units.{PackageUnit}
use yoe.Starlark.Projects.{
  Project, provider_of, scan_units, scan_modules, tagged_unit, tagged_provider, lookup_unit,
  resolve_for_distro, pinned_unit, pinned_module, unit_in_module, any_unit, global_provider,
  resolve_provides_for_distro,
}
use yoe.Starlark.Provided.Scan.{SameUnits, IsProvider, scan_modules-same}
use yoe.Starlark.Provided.{
  add_provided, view_or_new, add_tagged, add_provider, add_units, add_modules, build_provides_views,
}

-- The first of two answers.
abbrev or_else : Option Text → Option Text → Option Text
or_else none o = o
or_else (some x) _ = some x

or_else_assoc : (a b c : Option Text) → or_else (or_else a b) c ≡ or_else a (or_else b c)
or_else_assoc none b c = refl
or_else_assoc (some x) b c = refl

or_else-none : (a : Option Text) → or_else a none ≡ a
or_else-none none = refl
or_else-none (some x) = refl

or_else-elim :
    (o r : Option Text)
    → or_else o r ≡ (elim o as (λ _. Option Text) [ some name ↦ some name | none ↦ r ])
or_else-elim none r = refl
or_else-elim (some x) r = refl

or_else-if :
    (name : Text) (b c : Bool)
    → or_else (if b then some name else none) (if c then some name else none)
      ≡ (if if b then true else c then some name else none)
or_else-if name true c = refl
or_else-if name false c = refl

-- The projects with the index, made by a walk over `modules`, and without it.
abbrev pub with_index : Project → Dict (Dict PackageUnit) → Project
with_index p modules = record p {
  provides_views = some (build_provides_views (record p { units_by_module = modules }));
}

abbrev pub without_index : Project → Project
without_index p = record p { provides_views = none }

module _ (virtual distro : Text) where
  abbrev in_view : Option (Dict Text) → Option Text
  in_view none = none
  in_view (some view) = get virtual view

  abbrev answer : Dict (Dict Text) → Option Text
  answer views = in_view (get distro views)

  module _ (wanted : virtual ≢ []) where
    get-add_provided :
        (name v : Text) (view : Dict Text)
        → get virtual (add_provided name view v)
          ≡ or_else (get virtual view) (if text_eq v virtual then some name else none)
    unfolding add_provided
    get-add_provided name [] view = elim (Bool-cases (text_eq [] virtual)) [
      | inl f ↦ absurd (wanted (sym (eq_of_text_eq [] virtual f)))
      | inr f ↦ rw f (sym (or_else-none (get virtual view)))
    ]
    get-add_provided name (c ∷ v) view = elim (Option-cases (get (c ∷ v) view)) [
      | inl e ↦
          rw (e, add_provided)
            (rw (get-put (c ∷ v) virtual name view) (elim (Bool-cases (text_eq (c ∷ v) virtual)) [
              | inl f ↦ rw (f, ← eq_of_text_eq (c ∷ v) virtual f, e) refl
              | inr f ↦ rw (f, or_else-none (get virtual view)) refl
            ]))
      | inr (x, e) ↦
          rw (e, add_provided)
            (elim (Bool-cases (text_eq (c ∷ v) virtual)) [
              | inl f ↦ rw (← eq_of_text_eq (c ∷ v) virtual f, e) refl
              | inr f ↦ rw (f, or_else-none (get virtual view)) refl
            ])
    ]

    get-fold_provided :
        (name : Text) (vs : List Text) (view : Dict Text)
        → get virtual (foldl (add_provided name) view vs)
          ≡ or_else (get virtual view) (if elem virtual vs then some name else none)
    unfolding elem
    get-fold_provided name [] view = sym (or_else-none (get virtual view))
    get-fold_provided name (v ∷ vs) view =
        get-fold_provided name vs (add_provided name view v)
        ∙ rw (get-add_provided name v view) (
            or_else_assoc (get virtual view) _ _
            ∙ ap (or_else (get virtual view))
                (or_else-if name (text_eq v virtual) (elem virtual vs)))

    get-view_or_new :
        (views : Dict (Dict Text)) → get virtual (view_or_new distro views) ≡ answer views
    unfolding view_or_new get
    get-view_or_new views = elim (Option-cases (get distro views)) [
      | inl e ↦ rw (e, view_or_new) refl
      | inr (view, e) ↦ rw (e, view_or_new) refl
    ]

    module _ (tagged : distro ≢ []) where
      answer-add_tagged :
          (views : Dict (Dict Text)) (name d : Text) (ps : List Text)
          → answer (add_tagged views name d ps)
            ≡ or_else
                (answer views)
                (if text_eq d distro && elem virtual ps then some name else none)
      unfolding add_tagged elem
      answer-add_tagged views name [] ps = elim (Bool-cases (text_eq [] distro)) [
        | inl f ↦ absurd (tagged (sym (eq_of_text_eq [] distro f)))
        | inr f ↦ rw f (sym (or_else-none (answer views)))
      ]
      answer-add_tagged views name (c ∷ d) [] = elim (Bool-cases (text_eq (c ∷ d) distro)) [
        | inl f ↦ rw f (sym (or_else-none (answer views)))
        | inr f ↦ rw f (sym (or_else-none (answer views)))
      ]
      answer-add_tagged views name (c ∷ d) (v ∷ vs) =
          rw
            (get-put (c ∷ d) distro (foldl (add_provided name) (view_or_new (c ∷ d) views) (v ∷ vs))
              views)
            (elim (Bool-cases (text_eq (c ∷ d) distro)) [
              | inl f ↦
                  rw (f, eq_of_text_eq (c ∷ d) distro f)
                    (get-fold_provided name (v ∷ vs) (view_or_new distro views)
                      ∙ ap (λ o. or_else o (if elem virtual (v ∷ vs) then some name else none))
                          (get-view_or_new views))
              | inr f ↦ rw f (sym (or_else-none (answer views)))
            ])

      answer-add_provider :
          (views : Dict (Dict Text)) (u : PackageUnit)
          → answer (add_provider views u) ≡ or_else (answer views) (provider_of virtual distro u)
      unfolding add_provider provider_of
      answer-add_provider views u = answer-add_tagged views u.name u.distro u.provides

      answer-add_units :
          (us : Dict PackageUnit) (views : Dict (Dict Text))
          → answer (add_units views us) ≡ or_else (answer views) (scan_units virtual distro us)
      unfolding add_units scan_units
      answer-add_units [] views = sym (or_else-none (answer views))
      answer-add_units ((_, u) ∷ us) views =
          answer-add_units us (add_provider views u)
          ∙ rw (answer-add_provider views u) (
              or_else_assoc (answer views) _ _
              ∙ ap (or_else (answer views))
                  (or_else-elim (provider_of virtual distro u) (scan_units virtual distro us)))

      answer-add_modules :
          (ms : Dict (Dict PackageUnit)) (views : Dict (Dict Text))
          → answer (add_modules views ms) ≡ or_else (answer views) (scan_modules virtual distro ms)
      unfolding add_modules scan_modules
      answer-add_modules [] views = sym (or_else-none (answer views))
      answer-add_modules ((_, us) ∷ ms) views =
          answer-add_modules ms (add_units views us)
          ∙ rw (answer-add_units us views) (
              or_else_assoc (answer views) _ _
              ∙ ap (or_else (answer views))
                  (or_else-elim (scan_units virtual distro us) (scan_modules virtual distro ms)))

in_view-elim :
    (virtual : Text) (o : Option (Dict Text))
    → (elim o as (λ _. Option Text) [ none ↦ none | some view ↦ get virtual view ])
      ≡ in_view virtual [] o
in_view-elim virtual none = refl
in_view-elim virtual (some view) = refl

tagged_provider-with_index :
    (p : Project) (modules : Dict (Dict PackageUnit)) (virtual distro : Text)
    → virtual ≢ []
    → distro ≢ []
    → SameUnits p.units_by_module modules
    → ((m n : Text)
        → IsProvider virtual distro p.units_by_module m
        → IsProvider virtual distro p.units_by_module n
        → m ≡ n)
    → tagged_provider (with_index p modules) virtual distro
      ≡ tagged_provider (without_index p) virtual distro
unfolding tagged_provider build_provides_views get
tagged_provider-with_index p modules virtual distro v d same one =
    in_view-elim virtual (get distro (add_modules [] modules))
    ∙ answer-add_modules virtual distro v d modules []
    ∙ scan_modules-same virtual distro p.units_by_module modules same one

-- The index of what the tagged units provide may be made from the modules and units in any order.
-- It changes no answer of `ResolveProvidesForDistro`, which is what it gives by a scan in another order
-- where it has no index, if all units tagged for the distro that provide the name are called the same.
pub resolve_provides-with_index :
    (p : Project) (modules : Dict (Dict PackageUnit)) (virtual distro : Text)
    → SameUnits p.units_by_module modules
    → ((m n : Text)
        → IsProvider virtual distro p.units_by_module m
        → IsProvider virtual distro p.units_by_module n
        → m ≡ n)
    → resolve_provides_for_distro (with_index p modules) virtual distro
      ≡ resolve_provides_for_distro (without_index p) virtual distro
unfolding resolve_provides_for_distro tagged_unit lookup_unit resolve_for_distro pinned_unit
    pinned_module unit_in_module any_unit global_provider
resolve_provides-with_index p modules [] distro same one = refl
resolve_provides-with_index p modules (c ∷ virtual) [] same one = refl
resolve_provides-with_index p modules (c ∷ virtual) (d ∷ distro) same one =
    ap
      (λ (o : Option Text).
        elim (tagged_unit (without_index p) (c ∷ virtual) (d ∷ distro)) as (λ _. Text) [
          | some name ↦ name
          | none ↦ elim o as (λ _. Text) [
            | some name ↦ name
            | none ↦ global_provider p (c ∷ virtual)
          ]
        ])
      (tagged_provider-with_index p modules (c ∷ virtual) (d ∷ distro) (λ e. cc) (λ e. cc) same one)
