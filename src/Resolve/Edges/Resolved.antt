-- ===== src/Resolve/Edges/Resolved.antt =====
-- The resolved dependencies of a unit: no name twice, and exactly what the names resolve to.
use yoe.Common.{
  if_elim, Distinct, elem-snoc, Distinct-snoc, ◌≡◌, refl, subst, ◌↔◌, ◌⊎◌, inl, inr, true, List, [],
  ◌∷◌, arith, text_eq_iff, Text, elem,
}
use mathlib.Core.List.{Memᴰ}
use mathlib.Core.List.Memᴰ
use yoe.Starlark.Projects.{Project, resolve_provides_for_distro}
use yoe.Resolve.Runtime.{or_itself}
use yoe.Resolve.Edges.{add_resolved, resolve_deps_from, resolve_deps}

-- A listed name resolves to `x`.
pub record ResolvesTo (p : Project) (distro : Text) (deps : List Text) (x : Text) : Type 0 where
  pub dep : Text
  pub listed : Memᴰ dep deps
  pub resolved : or_itself dep (resolve_provides_for_distro p dep distro) ≡ x

module _ (p : Project) (distro : Text) where
  abbrev target : Text → Text
  target d = or_itself d (resolve_provides_for_distro p d distro)

  elem-add_resolved :
      (out : List Text) (d x : Text)
      → elem x (add_resolved p distro out d) ≡ true ↔ ((elem x out ≡ true) ⊎ (target d ≡ x))
  unfolding add_resolved
  elem-add_resolved out d x = ground (arith, elem-snoc x (target d) out, text_eq_iff (target d) x)

  add_resolved-Distinct :
      (out : List Text) (d : Text) → Distinct out → Distinct (add_resolved p distro out d)
  unfolding add_resolved
  add_resolved-Distinct out d h =
      if_elim Distinct (elem (target d) out) (λ _. h) (λ n. Distinct-snoc (target d) out h n)

  resolve_from-Distinct :
      (ds out : List Text) → Distinct out → Distinct (resolve_deps_from p distro out ds)
  unfolding resolve_deps_from
  resolve_from-Distinct [] out h = h
  resolve_from-Distinct (d ∷ ds) out h =
      resolve_from-Distinct ds (add_resolved p distro out d) (add_resolved-Distinct out d h)

  resolve_from-ResolvesTo :
      (ds out : List Text) (x : Text)
      → elem x (resolve_deps_from p distro out ds) ≡ true
        ↔ ((elem x out ≡ true) ⊎ ResolvesTo p distro ds x)
  unfolding resolve_deps_from
  resolve_from-ResolvesTo [] out x =
      (inl, λ m. elim m [ inl h ↦ h | inr r ↦ absurd (Memᴰ.not-nil r.listed) ])
  resolve_from-ResolvesTo (d ∷ ds) out x =
      let rest = resolve_from-ResolvesTo ds (add_resolved p distro out d) x in
      let new = elem-add_resolved out d x in
      (
        λ m. elim (rest.0 m) [
          | inr r ↦ inr (record { dep = r.dep; listed = Memᴰ.tail r.listed; resolved = r.resolved })
          | inl n ↦ elim (new.0 n) [
            | inl old ↦ inl old
            | inr e ↦ inr (record { dep = d; listed = Memᴰ.head refl; resolved = e })
          ]
        ],
        λ m. elim m [
          | inl old ↦ rest.1 (inl (new.1 (inl old)))
          | inr r ↦ elim (Memᴰ.cases_cons r.listed) [
            | inl e ↦ rest.1 (inl (new.1 (inr (subst (λ c. target c ≡ x) e r.resolved))))
            | inr l ↦ rest.1 (inr (record { dep = r.dep; listed = l; resolved = r.resolved }))
          ]
        ],
      )

-- `resolveDeps` lists, each once, exactly the units that the given names resolve to: the provider of
-- a virtual name for the distro, or the name itself where nothing provides it.
pub resolve_deps-ResolvesTo :
    (deps : List Text) (p : Project) (distro : Text)
    → Distinct (resolve_deps deps p distro)
      × ((x : Text) → elem x (resolve_deps deps p distro) ≡ true ↔ ResolvesTo p distro deps x)
unfolding resolve_deps
resolve_deps-ResolvesTo deps p distro = (
  resolve_from-Distinct p distro deps [] tt,
  λ x.
      let m = resolve_from-ResolvesTo p distro deps [] x in
      (λ h. elim (m.0 h) [ inl n ↦ absurd (no_elem x n) | inr r ↦ r ], λ r. m.1 (inr r)),
)
  where
    no_elem : (x : Text) → elem x [] ≡ true → ⊥
    no_elem x h = unfold elem in cc
