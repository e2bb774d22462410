-- ===== src/Build/Plan.antt =====
-- internal/build/executor.go: what a build decides to do with each unit.
pub mod Planned
use yoe.Common.{
  if◌then◌else◌, ◌>>=◌, ◌>>◌, Bool, true, false, not, ◌&&◌, ◌||◌, Option, none, some, List, [], ◌∷◌,
  Text, codes, text_eq, Dict, get, put, elem,
}
use yoe.Starlark.Units.{PackageUnit, empty_unit}
use yoe.Starlark.Projects.{Project, lookup_unit}

-- The options that a plan reads.
pub record Options : Type 0 where
  pub force : Bool
  pub clean : Bool
  pub no_cache : Bool
  pub arch : Text
  pub machine : Text
  pub effective_distro : Text

pub record UnitPlan : Type 0 where
  pub unit : PackageUnit
  pub hash : Text
  pub scope_dir : Text
  pub cached : Bool
  pub forced : Bool
  pub no_cache : Bool

unfoldable pub reuse_cache : UnitPlan → Bool
reuse_cache p = p.cached && not p.forced && not p.no_cache

unfoldable pub scope_dir : PackageUnit → Text → Text → Text
scope_dir u arch machine =
    if text_eq u.scope (codes "machine")
    then machine
    else (if text_eq u.scope (codes "noarch") then codes "noarch" else arch)

-- `len(requested) == 0`
abbrev pub is_empty : List Text → Bool
is_empty [] = true
is_empty (_ ∷ _) = false

-- `hashes[name]`, which is empty where the key is missing.
abbrev pub hash_of : Dict Text → Text → Text
hash_of hashes name = elim (get name hashes) [ none ↦ [] | some h ↦ h ]

-- `CacheValid` reads files: it is the argument `cache_valid`, of the unit, its scope's directory and
-- its hash.
unfoldable pub plan_unit :
    (PackageUnit → Text → Text → Bool)
    → Options
    → Dict Text
    → List Text
    → Text
    → PackageUnit
    → UnitPlan
plan_unit cache_valid opts hashes requested name u =
    let dir = scope_dir u opts.arch opts.machine in
    record {
      unit = u;
      hash = hash_of hashes name;
      scope_dir = dir;
      cached = cache_valid u dir (hash_of hashes name);
      forced = (opts.force || opts.clean) && (is_empty requested || elem name requested);
      no_cache = opts.no_cache;
    }

-- `planUnits`, the plans put into `plans`; `none` stands for the panic where a name of the order is
-- no unit.
unfoldable pub plan_units :
    (PackageUnit → Text → Text → Bool)
    → Project
    → List Text
    → Dict Text
    → Options
    → List Text
    → Dict UnitPlan
    → Option (Dict UnitPlan)
plan_units cache_valid p [] hashes opts requested plans = some plans
plan_units cache_valid p (name ∷ order) hashes opts requested plans =
    elim (lookup_unit p opts.effective_distro name) [
      | none ↦ none
      | some u ↦
          plan_units cache_valid p order hashes opts requested
            (put name (plan_unit cache_valid opts hashes requested name u) plans)
    ]

-- `plans[name]`; every name of the order has a plan, and what stands here for a missing one is never
-- read.
abbrev pub plan_of : Dict UnitPlan → Text → UnitPlan
plan_of plans name = elim (get name plans) [
  | some plan ↦ plan
  | none ↦ record {
    unit = empty_unit;
    hash = [];
    scope_dir = [];
    cached = false;
    forced = false;
    no_cache = false;
  }
]
