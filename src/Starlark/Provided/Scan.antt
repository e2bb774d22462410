-- ===== src/Starlark/Provided/Scan.antt =====
-- What the scan of `ResolveProvidesForDistro` finds, whatever the order of the modules and units.
use yoe.Common.{
  Option-cases, ◌≡◌, refl, ap, subst, ◌↔◌, inl, inr, true, Option, none, some, [], ◌∷◌, arith,
  text_eq_iff, Text, Dict, elem,
}
use mathlib.Core.List.{Memᴰ}
use mathlib.Core.List.Memᴰ
use yoe.Starlark.Units.{PackageUnit}
use yoe.Starlark.Projects.{provider_of, scan_units, scan_modules}

-- A module of the catalog registers the unit.
pub record IsRegistered (ms : Dict (Dict PackageUnit)) (u : PackageUnit) : Type 0 where
  pub home : Text
  pub by_name : Dict PackageUnit
  pub key : Text
  pub module_listed : Memᴰ (home, by_name) ms
  pub unit_listed : Memᴰ (key, u) by_name

-- Two catalogs register the same units, in whatever order.
abbrev pub SameUnits : Dict (Dict PackageUnit) → Dict (Dict PackageUnit) → Type 0
SameUnits ms ns = (u : PackageUnit) → IsRegistered ms u ↔ IsRegistered ns u

module _ (virtual distro : Text) where
  -- A unit of that name that is tagged for the distro provides the virtual name.
  pub record IsProvider (ms : Dict (Dict PackageUnit)) (name : Text) : Type 0 where
    pub unit : PackageUnit
    pub registered : IsRegistered ms unit
    pub tagged : unit.distro ≡ distro
    pub provided : elem virtual unit.provides ≡ true
    pub named : unit.name ≡ name

  -- A provider, or none exactly where there is none.
  abbrev pub IsFound : Dict (Dict PackageUnit) → Option Text → Type 0
  IsFound ms (some name) = IsProvider ms name
  IsFound ms none = (name : Text) → ¬ IsProvider ms name

  abbrev Matches : PackageUnit → Text → Type 0
  Matches u name = (u.distro ≡ distro) × (elem virtual u.provides ≡ true) × (u.name ≡ name)

  abbrev InUnits : Dict PackageUnit → Text → Type 0
  InUnits us name = (key : Text) × (u : PackageUnit) × Memᴰ (key, u) us × Matches u name

  abbrev FoundUnits : Dict PackageUnit → Option Text → Type 0
  FoundUnits us (some name) = InUnits us name
  FoundUnits us none = (name : Text) → ¬ InUnits us name

  provider_of_iff :
      (u : PackageUnit) (name : Text) → provider_of virtual distro u ≡ some name ↔ Matches u name
  unfolding provider_of
  provider_of_iff u name = ground (arith, text_eq_iff u.distro distro)

  scan_units-FoundUnits : (us : Dict PackageUnit) → FoundUnits us (scan_units virtual distro us)
  unfolding scan_units
  scan_units-FoundUnits [] = λ name (_, _, m, _). Memᴰ.not-nil m
  scan_units-FoundUnits ((key, u) ∷ us) = elim (Option-cases (provider_of virtual distro u)) [
    | inr (name, e) ↦ rw (e, scan_units) (key, u, Memᴰ.head refl, (provider_of_iff u name).0 e)
    | inl e ↦ rw (e, scan_units) (later (scan_units virtual distro us) (scan_units-FoundUnits us) e)
  ]
    where
      later :
          (o : Option Text)
          → FoundUnits us o
          → provider_of virtual distro u ≡ none
          → FoundUnits ((key, u) ∷ us) o
      later (some name) (k, v, m, w) e = (k, v, Memᴰ.tail m, w)
      later none f e = λ name (k, v, m, w). elim (Memᴰ.cases_cons m) [
        | inl same ↦
            let eq : v ≡ u = ap (λ (q : Text × PackageUnit). q.1) same in
            cc (e, (provider_of_iff u name).1 (subst (λ t. Matches t name) eq w))
        | inr rest ↦ f name (k, v, rest, w)
      ]

  IsProvider-of_units :
      (home : Text) (by_name : Dict PackageUnit) (ms : Dict (Dict PackageUnit)) (name : Text)
      → Memᴰ (home, by_name) ms
      → InUnits by_name name
      → IsProvider ms name
  IsProvider-of_units home by_name ms name m (key, u, l, (t, v, n)) = record {
    unit = u;
    registered = record {
      home = home;
      by_name = by_name;
      key = key;
      module_listed = m;
      unit_listed = l;
    };
    tagged = t;
    provided = v;
    named = n;
  }

  IsProvider-InUnits :
      {ms : Dict (Dict PackageUnit)} {name : Text} (w : IsProvider ms name)
      → InUnits w.registered.by_name name
  IsProvider-InUnits w =
      (w.registered.key, w.unit, w.registered.unit_listed, (w.tagged, w.provided, w.named))

  -- The scan finds a provider wherever there is one.
  pub scan_modules-IsFound :
      (ms : Dict (Dict PackageUnit)) → IsFound ms (scan_modules virtual distro ms)
  unfolding scan_modules
  scan_modules-IsFound [] = λ name w. Memᴰ.not-nil w.registered.module_listed
  scan_modules-IsFound ((home, us) ∷ ms) = elim (Option-cases (scan_units virtual distro us)) [
    | inr (name, e) ↦
        rw (e, scan_modules)
          (IsProvider-of_units home us ((home, us) ∷ ms) name (Memᴰ.head refl)
            (subst (FoundUnits us) e (scan_units-FoundUnits us)))
    | inl e ↦
        rw (e, scan_modules)
          (later (scan_modules virtual distro ms) (scan_modules-IsFound ms)
            (subst (FoundUnits us) e (scan_units-FoundUnits us)))
  ]
    where
      later : (o : Option Text) → IsFound ms o → FoundUnits us none → IsFound ((home, us) ∷ ms) o
      later (some name) w _ =
          IsProvider-of_units w.registered.home w.registered.by_name ((home, us) ∷ ms) name
            (Memᴰ.tail w.registered.module_listed) (IsProvider-InUnits w)
      later none f free = λ name w. elim (Memᴰ.cases_cons w.registered.module_listed) [
        | inl same ↦
            let eq : w.registered.by_name ≡ us = ap (λ (q : Text × Dict PackageUnit). q.1) same in
            free name (subst (λ vs. InUnits vs name) eq (IsProvider-InUnits w))
        | inr rest ↦ f name (
            IsProvider-of_units w.registered.home w.registered.by_name ms name rest
              (IsProvider-InUnits w))
      ]

  IsProvider-same :
      (ms ns : Dict (Dict PackageUnit)) (name : Text)
      → SameUnits ms ns
      → IsProvider ns name
      → IsProvider ms name
  IsProvider-same ms ns name same w = record {
    unit = w.unit;
    registered = (same w.unit).1 w.registered;
    tagged = w.tagged;
    provided = w.provided;
    named = w.named;
  }

  -- Two scans over the same units find the same provider, if all providers have one name.
  pub scan_modules-same :
      (ms ns : Dict (Dict PackageUnit))
      → SameUnits ms ns
      → ((m n : Text) → IsProvider ms m → IsProvider ms n → m ≡ n)
      → scan_modules virtual distro ns ≡ scan_modules virtual distro ms
  scan_modules-same ms ns same one =
      go (scan_modules virtual distro ns) (scan_modules virtual distro ms) (scan_modules-IsFound ns)
        (scan_modules-IsFound ms)
    where
      go : (a b : Option Text) → IsFound ns a → IsFound ms b → a ≡ b
      go none none f g = refl
      go (some m) none f g = absurd (g m (IsProvider-same ms ns m same f))
      go none (some n) f g =
          absurd (f n (IsProvider-same ns ms n (λ u. ((same u).1, (same u).0)) g))
      go (some m) (some n) f g = ap some (one m n (IsProvider-same ms ns m same f) g)
