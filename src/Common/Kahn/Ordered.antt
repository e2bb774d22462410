-- ===== src/Common/Kahn/Ordered.antt =====
-- Lists in which every name stands behind its dependencies.
use yoe.Common.{
  Bool-cases, elem-snoc, ◌≡◌, inl, inr, Bool, true, false, List, [], ◌∷◌, ◌++◌, append-nil,
  append_assoc, arith, eq_of_text_eq, text_eq_iff, Text, text_eq, elem,
}

module _ (deps : Text → List Text) where
  -- `seen` is what stands in front.
  abbrev pub Ordered : List Text → List Text → Type 0
  Ordered seen [] = Unit
  Ordered seen (x ∷ xs) =
      ((y : Text) → elem y (deps x) ≡ true → elem y seen ≡ true) × Ordered (seen ++ (x ∷ [])) xs

  pub Ordered-snoc :
      (xs seen : List Text) (x : Text)
      → Ordered seen xs
      → ((y : Text) → elem y (deps x) ≡ true → elem y (seen ++ xs) ≡ true)
      → Ordered seen (xs ++ (x ∷ []))
  Ordered-snoc [] seen x o h = (λ y m. rw (append-nil seen) at (h y m), tt)
  Ordered-snoc (z ∷ xs) seen x o h = (
    o.0,
    Ordered-snoc xs (seen ++ (z ∷ [])) x o.1 (λ y m. rw (append_assoc seen (z ∷ []) xs) (h y m)),
  )

  -- A set of names each of which depends on one of them: none of them stands in an ordered list.
  pub Ordered-avoids :
      (stuck : Text → Bool)
      → ((x : Text) → stuck x ≡ true → (y : Text) × (elem y (deps x) ≡ true) × (stuck y ≡ true))
      → (xs seen : List Text) → Ordered seen xs
      → ((x : Text) → elem x seen ≡ true → stuck x ≡ false)
      → (x : Text) → elem x xs ≡ true
      → stuck x ≡ false
  unfolding elem
  Ordered-avoids stuck next [] seen o free x m = cc
  Ordered-avoids stuck next (z ∷ xs) seen o free x m = elim (Bool-cases (stuck z)) [
    | inl s ↦ let (y, d, t) = next z s in cc (free y (o.0 y d))
    | inr s ↦ elim (Bool-cases (text_eq z x)) [
      | inl e ↦ rw (← eq_of_text_eq z x e) s
      | inr e ↦
          Ordered-avoids stuck next xs (seen ++ (z ∷ [])) o.1
            (λ w n. ground (arith, free w, elem-snoc w z seen, text_eq_iff z w)) x (rw e at m)
    ]
  ]
