-- ===== src/Build/Order/Keep.antt =====
-- The names of a list that pass a test, and build orders cut down to them.
use yoe.Common.{
  if◌then◌else◌, Bool-cases, Distinct, elem-snoc, count, elem-count, count-of_Distinct,
  Distinct-of_count, ◌≡◌, refl, ap, inl, inr, Bool, true, not, ◌&&◌, List, [], ◌∷◌, ◌++◌, arith,
  eq_of_text_eq, text_eq_iff, Text, text_eq, elem,
}
use yoe.Common.Kahn.Ordered.{Ordered}
use yoe.Starlark.Units.{not_buildable}
use yoe.Starlark.Projects.{Project, lookup_unit}
use yoe.Build.Order.{within, skip_unbuildable}

pub keep : (Text → Bool) → List Text → List Text
keep test [] = []
keep test (x ∷ xs) = let rest = keep test xs in if test x then x ∷ rest else rest

pub within-keep : (chosen xs : List Text) → within chosen xs ≡ keep (λ x. elem x chosen) xs
unfolding within keep
within-keep chosen [] = refl
within-keep chosen (x ∷ xs) = rw (within-keep chosen xs) refl

pub skip_unbuildable-keep :
    (p : Project) (distro : Text) (xs : List Text)
    → skip_unbuildable p distro xs ≡ keep (λ x. not (not_buildable (lookup_unit p distro x))) xs
unfolding skip_unbuildable keep
skip_unbuildable-keep p distro [] = refl
skip_unbuildable-keep p distro (x ∷ xs) =
    let ih = skip_unbuildable-keep p distro xs in
    elim (Bool-cases (not_buildable (lookup_unit p distro x))) [
      | inl e ↦ rw (e, ih) refl
      | inr e ↦ rw (e, ih) refl
    ]

pub keep-all : (xs : List Text) → keep (λ x. true) xs ≡ xs
unfolding keep
keep-all [] = refl
keep-all (x ∷ xs) = ap (λ l. x ∷ l) (keep-all xs)

module _ (test : Text → Bool) where
  count-keep :
      (k : Text) (xs : List Text) → count k (keep test xs) ≡ (if test k then count k xs else 0)
  unfolding keep count
  count-keep k [] = ground arith
  count-keep k (x ∷ xs) =
      let same : text_eq x k ≡ true → test x ≡ test k = λ e. ap test (eq_of_text_eq x k e) in
      elim (Bool-cases (test x)) [
        | inl f ↦ rw f (ground (arith, count-keep k xs, same, f))
        | inr f ↦ rw f (ground (arith, count-keep k xs, same, f))
      ]

  pub elem-keep : (k : Text) (xs : List Text) → elem k (keep test xs) ≡ (test k && elem k xs)
  elem-keep k xs = ground (arith, count-keep k xs, elem-count k xs, elem-count k (keep test xs))

  pub Distinct-keep : (xs : List Text) → Distinct xs → Distinct (keep test xs)
  Distinct-keep xs d =
      Distinct-of_count (keep test xs)
        (λ k. ground (arith, count-keep k xs, count-of_Distinct k xs d))

  pub Ordered-keep :
      (deps fewer : Text → List Text)
      → ((x y : Text) → elem y (fewer x) ≡ true → (elem y (deps x) ≡ true) × (test y ≡ true))
      → (xs seen rest : List Text)
      → ((y : Text) → elem y seen ≡ true → test y ≡ true → elem y rest ≡ true)
      → Ordered deps seen xs
      → Ordered fewer rest (keep test xs)
  unfolding keep
  Ordered-keep deps fewer cut [] seen rest into o = tt
  Ordered-keep deps fewer cut (x ∷ xs) seen rest into o = elim (Bool-cases (test x)) [
    | inl e ↦ rw e (
      λ y m. let (d, t) = cut x y m in into y (o.0 y d) t,
      Ordered-keep deps fewer cut xs (seen ++ (x ∷ [])) (rest ++ (x ∷ []))
          (λ y m t. ground (arith, elem-snoc y x seen, elem-snoc y x rest, into y, m, t)) o.1,
    )
    | inr e ↦ rw e (
        Ordered-keep deps fewer cut xs (seen ++ (x ∷ [])) rest
          (λ y m t. ground (arith, elem-snoc y x seen, into y, m, t, e, text_eq_iff x y)) o.1)
  ]
