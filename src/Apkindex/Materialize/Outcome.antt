-- ===== src/Apkindex/Materialize/Outcome.antt =====
-- What `MaterializeUnit` returns, on success and on failure.
use yoe.Common.{
  Result, Result-cases, ok, err, Distinct, ◌≡◌, refl, ap, ◌∙◌, ◌↔◌, inl, inr, true, false, some, [],
  arith, Text, elem,
}
use mathlib.Core.List.{Memᴰ}
use yoe.Apkindex.Entry.{Entry}
use yoe.Starlark.Units.{PackageUnit}
use yoe.Apkindex.Materialize.{
  Providers, MaterializeError, resolve_from, resolve_runtime_deps, materialize_unit,
}
use yoe.Apkindex.Materialize.Closure.{
  FailsWith, AskedBy, resolve_from-mem, resolve_from-Distinct, resolve_from-err,
}

module _ (entry : Entry) (providers : Providers) (module_name : Text) where
  deps_of_materialize :
      (u : PackageUnit)
      → materialize_unit entry (some providers) module_name ≡ ok u
      → (resolve_from entry.name providers [] entry.deps ≡ ok u.runtime_deps)
        × (u.name ≡ entry.name)
  unfolding materialize_unit resolve_runtime_deps
  deps_of_materialize u h = elim (Result-cases (resolve_from entry.name providers [] entry.deps)) [
    | inl (deps, r) ↦
        let h' : _ ≡ ok u = rw (r, materialize_unit) at h in (r ∙ ground arith, ground arith)
    | inr (e, r) ↦ cc (rw (r, materialize_unit) at h)
  ]

  -- A materialized unit is named after its entry, and its runtime dependencies are, each once,
  -- exactly the packages that the entry's dependency tokens ask for: never the package itself, no
  -- conflict and no path.
  pub materialize_unit-deps :
      (u : PackageUnit)
      → materialize_unit entry (some providers) module_name ≡ ok u
      → (u.name ≡ entry.name)
        × Distinct u.runtime_deps
        × ((x : Text) → elem x u.runtime_deps ≡ true ↔ AskedBy entry.name providers entry.deps x)
  materialize_unit-deps u h =
      let (r, named) = deps_of_materialize u h in
      (
        named,
        resolve_from-Distinct entry.name providers entry.deps [] u.runtime_deps r tt,
        λ x.
            let m = resolve_from-mem entry.name providers entry.deps [] u.runtime_deps r x in
            (λ y. elim (m.0 y) [ inl none_yet ↦ cc (elem_nil x) | inr a ↦ a ], λ a. m.1 (inr a)),
      )
    where
      elem_nil : (x : Text) → elem x [] ≡ false
      elem_nil x = unfold elem in refl

  -- Where materializing fails, one of the entry's tokens is at fault: it is malformed, or it is a
  -- dependency that nothing provides. The error names that token.
  pub materialize_unit-err :
      (e : MaterializeError)
      → materialize_unit entry (some providers) module_name ≡ err e
      → (raw : Text) × Memᴰ raw entry.deps × FailsWith entry.name providers raw e
  unfolding materialize_unit resolve_runtime_deps
  materialize_unit-err e h = elim (Result-cases (resolve_from entry.name providers [] entry.deps)) [
    | inl (deps, r) ↦ cc (rw (r, materialize_unit) at h)
    | inr (f, r) ↦
        let h' : ◌≡◌ {A = Result MaterializeError PackageUnit} (err f) (err e) =
          rw (r, materialize_unit) at h in
        let same : f ≡ e = cc in
        resolve_from-err entry.name providers entry.deps [] e (r ∙ ap err same)
  ]
