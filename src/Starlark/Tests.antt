-- ===== src/Starlark/Tests.antt =====
-- Lookups on a project of two modules, and the theorems at this project.
use yoe.Common.{
  Distinct, ltb_int, pos, negsuc, compare_text, insert_sorted, sort_strings, ◌≡◌, refl, sym, ap,
  ◌∙◌, subst, inl, inr, true, none, some, List, [], ◌∷◌, ◌++◌, Text, codes, text_eq, Dict, get, put,
  elem, keys_of_dict,
}
use yoe.Starlark.Units.{PackageUnit, empty_unit}
use yoe.Starlark.Projects.{
  Project, resolve_provides_for_distro, resolve_for_distro, lookup_unit, pinned_unit, pinned_module,
  unit_in_module, any_unit, best_unit, better_unit, candidate, visible_to_distro,
}
use yoe.Starlark.Projects.Best.{IsPinned, IsBest, any_unit-IsBest, resolve_for_distro-IsBest}
use mathlib.Core.List.{Memᴰ}
use mathlib.Core.List.Memᴰ
use yoe.Starlark.Provided.Scan.{IsRegistered, SameUnits}
use yoe.Starlark.Provided.Cache.{with_index, without_index, resolve_provides-with_index}
use yoe.Starlark.Views.{
  all_distros, all_names, add_to_view, view_of, build_distro_views, module_distros, unit_distros,
  named_distro,
}
use yoe.Common.Kahn.{names_with, count_down}
use yoe.Starlark.Topo.{
  topo_order, count_all, count_edges, add_edge, emit_waves, free_wave, free_all, free_one,
  append_stuck, stuck_names,
}
use yoe.Starlark.Topo.Order.{IsTopological, topo_order-IsTopological}
use yoe.Starlark.Views.Cache.{with_views, lookup_unit-with_views}

abbrev alpine : Text
alpine = codes "alpine"

abbrev bash : Text
bash = codes "bash"

abbrev core_bash : PackageUnit
core_bash = record empty_unit { name = bash; module_index = pos 1 }

abbrev debian_bash : PackageUnit
debian_bash = record empty_unit {
  name = bash;
  distro = codes "debian";
  provides = codes "sh" ∷ [];
  module_index = negsuc 0;
}

-- A feed of a lower rank than the module has the unit for another distro.
abbrev pub project : Project
project = record {
  units_by_module =
      (codes "core", (bash, core_bash) ∷ []) ∷ (codes "debian.main", (bash, debian_bash) ∷ []) ∷ [];
  distro_views = [];
  provides_views = none;
  default_distro = alpine;
  default_distro_override = [];
  prefer_modules = [];
  provides = [];
}

running : Unit {0}
unfolding resolve_for_distro pinned_unit pinned_module unit_in_module any_unit best_unit better_unit
    candidate visible_to_distro ltb_int text_eq get put elem lookup_unit build_distro_views view_of
    add_to_view all_names all_distros module_distros unit_distros keys_of_dict named_distro
running = tt

any_bash : any_unit project bash ≡ some core_bash
unfolding running
any_bash = refl

alpine-bash : resolve_for_distro project alpine bash ≡ some core_bash
unfolding running
alpine-bash = refl

alpine_known : elem alpine (all_distros project) ≡ true
unfolding running
alpine_known = refl

any_unit-IsBest_example : IsBest bash (λ _. true) project.units_by_module (any_unit project bash)
any_unit-IsBest_example = any_unit-IsBest project bash

resolve_for_distro-IsBest_example :
    ((u : PackageUnit)
      → IsPinned project alpine bash u
      → resolve_for_distro project alpine bash ≡ some u)
    × (((u : PackageUnit) → ¬ IsPinned project alpine bash u)
        → IsBest bash
            (λ u. visible_to_distro u alpine)
            project.units_by_module
            (resolve_for_distro project alpine bash))
resolve_for_distro-IsBest_example = resolve_for_distro-IsBest project alpine bash

lookup_unit-with_views_example :
    lookup_unit (with_views project) alpine bash ≡ resolve_for_distro project alpine bash
lookup_unit-with_views_example = lookup_unit-with_views project alpine bash alpine_known

-- The two modules, walked the other way.
abbrev swapped : Dict (Dict PackageUnit)
swapped =
    (codes "debian.main", (bash, debian_bash) ∷ []) ∷ (codes "core", (bash, core_bash) ∷ []) ∷ []

listed_swap : {A : Type 0} (x a b : A) → Memᴰ x (a ∷ b ∷ []) → Memᴰ x (b ∷ a ∷ [])
listed_swap x a b m = elim (Memᴰ.cases_cons m) [
  | inl e ↦ Memᴰ.tail (Memᴰ.head e)
  | inr r ↦ Memᴰ.head (Memᴰ.eq_of_singleton r)
]

IsRegistered-swap :
    (a b : Text × Dict PackageUnit) (u : PackageUnit)
    → IsRegistered (a ∷ b ∷ []) u
    → IsRegistered (b ∷ a ∷ []) u
IsRegistered-swap a b u r = record {
  home = r.home;
  by_name = r.by_name;
  key = r.key;
  module_listed = listed_swap (r.home, r.by_name) a b r.module_listed;
  unit_listed = r.unit_listed;
}

swapped-SameUnits : SameUnits project.units_by_module swapped
swapped-SameUnits u = (IsRegistered-swap _ _ u, IsRegistered-swap _ _ u)

-- Every unit of the project is called `bash`.
registered-bash : (u : PackageUnit) → IsRegistered project.units_by_module u → u.name ≡ bash
registered-bash u r = elim (Memᴰ.cases_cons r.module_listed) [
  | inl e ↦ of_listed core_bash refl (ap (λ (q : Text × Dict PackageUnit). q.1) e)
  | inr m ↦
      of_listed debian_bash refl
        (ap (λ (q : Text × Dict PackageUnit). q.1) (Memᴰ.eq_of_singleton m))
]
  where
    of_listed : (v : PackageUnit) → v.name ≡ bash → r.by_name ≡ (bash, v) ∷ [] → u.name ≡ bash
    of_listed v n e =
        let m = subst (λ (l : Dict PackageUnit). Memᴰ (r.key, u) l) e r.unit_listed in
        let same : u ≡ v = ap (λ (q : Text × PackageUnit). q.1) (Memᴰ.eq_of_singleton m) in
        rw same n

resolve_provides-with_index_example :
    resolve_provides_for_distro (with_index project swapped) (codes "sh") (codes "debian")
    ≡ resolve_provides_for_distro (without_index project) (codes "sh") (codes "debian")
resolve_provides-with_index_example =
    resolve_provides-with_index project swapped (codes "sh") (codes "debian") swapped-SameUnits
      (λ m n v w.
        sym v.named
        ∙ registered-bash v.unit v.registered
        ∙ sym (registered-bash w.unit w.registered)
        ∙ w.named)

-- Two units that need each other, one that needs itself and one more, and one without needs.
abbrev needs : Dict (List Text)
needs =
    (bash, bash ∷ codes "libc" ∷ [])
    ∷ (codes "libc", [])
    ∷ (codes "x", codes "y" ∷ [])
    ∷ (codes "y", codes "x" ∷ [])
    ∷ []

ordering : Unit {0}
unfolding topo_order count_all count_edges add_edge emit_waves free_wave free_all free_one
    append_stuck stuck_names names_with count_down sort_strings insert_sorted compare_text get put
    elem text_eq keys_of_dict
ordering = tt

order_needs : topo_order needs ≡ some (codes "libc" ∷ bash ∷ codes "x" ∷ codes "y" ∷ [])
unfolding ordering
order_needs = refl

needs-Distinct : Distinct (keys_of_dict needs)
unfolding ordering
needs-Distinct = (refl, (refl, (refl, (refl, tt))))

topo_order-IsTopological_example :
    (front back : List Text) × (topo_order needs ≡ some (front ++ back))
    × IsTopological needs front back
topo_order-IsTopological_example = topo_order-IsTopological needs needs-Distinct
