-- ===== src/Build/Order/Chosen.antt =====
-- The units that a build takes up.
use yoe.Common.{
  Bool-cases, Option-cases, Result, ok, err, elem-append, ◌≡◌, refl, sym, ◌∙◌, subst, ◌↔◌, ◌⊎◌, inl,
  inr, Bool, true, false, ◌&&◌, List, [], ◌∷◌, ◌++◌, arith, text_eq_refl, eq_of_text_eq, Text,
  text_eq, Dict, get, elem,
}
use yoe.Resolve.Dag.{Node}
use yoe.Resolve.Dag.Link.{has_node}
use yoe.Resolve.Sort.Round.{IsCounted}
use yoe.Resolve.Sort.Order.{IsOrder}
use yoe.Resolve.Walk.{WalkError, not_found, no_node, out_of_fuel}
use yoe.Resolve.Walk.Graph.{DependsOn, all_deps_of-DependsOn}
use yoe.Build.Order.{needed_from, filter_build_order, chosen_order}
use yoe.Build.Order.Keep.{keep, keep-all, within-keep}

-- One of the names, or what one of them depends on.
pub data Wanted (nodes : Dict Node) (names : List Text) : Text → Type 0 where
  named : {x : Text} → elem x names ≡ true → Wanted nodes names x
  needed : (n : Text) {x : Text} → elem n names ≡ true → DependsOn nodes n x → Wanted nodes names x

Wanted-more :
    (nodes : Dict Node) (n : Text) (names : List Text) {x : Text}
    → Wanted nodes names x
    → Wanted nodes (n ∷ names) x
unfolding elem
Wanted-more nodes n names (named m) = named (ground (arith, m))
Wanted-more nodes n names (needed k m f) = needed k (ground (arith, m)) f

-- What the loop over the names adds to `seen`.
abbrev pub IsNeeded : Dict Node → List Text → List Text → Result WalkError (List Text) → Type 0
IsNeeded nodes seen names (ok out) =
    (x : Text) → elem x out ≡ true ↔ ((elem x seen ≡ true) ⊎ Wanted nodes names x)
IsNeeded nodes seen names (err (not_found n)) = (elem n names ≡ true) × (has_node nodes n ≡ false)
IsNeeded nodes seen names (err (no_node n)) = ⊥
IsNeeded nodes seen names (err out_of_fuel) = ⊥

module _ (nodes : Dict Node) (g : IsCounted nodes) where
  IsNeeded-nil : (seen : List Text) → IsNeeded nodes seen [] (ok seen)
  unfolding elem
  IsNeeded-nil seen x =
      (λ m. inl m, λ s. elim s [ inl m ↦ m | inr (named m) ↦ cc | inr (needed n m f) ↦ cc ])

  IsNeeded-next :
      (seen : List Text) (n : Text) (deps names : List Text)
      → ((x : Text) → elem x deps ≡ true ↔ DependsOn nodes n x)
      → (r : Result WalkError (List Text)) → IsNeeded nodes (seen ++ (n ∷ deps)) names r
      → IsNeeded nodes seen (n ∷ names) r
  unfolding elem
  IsNeeded-next seen n deps names exact (err (not_found k)) h = (ground (arith, h), h.1)
  IsNeeded-next seen n deps names exact (err (no_node k)) h = h
  IsNeeded-next seen n deps names exact (err out_of_fuel) h = h
  IsNeeded-next seen n deps names exact (ok out) h = λ x. (
    λ m. elim ((h x).0 m) [
      | inr w ↦ inr (Wanted-more nodes n names w)
      | inl s ↦ elim (Bool-cases (elem x seen)) [
        | inl e ↦ inl e
        | inr e ↦ elim (Bool-cases (text_eq n x)) [
          | inl f ↦ inr (named (rw f refl))
          | inr f ↦ inr (
              needed n (rw (text_eq_refl n) refl)
                ((exact x).0 (ground (arith, s, e, f, elem-append x seen (n ∷ deps)))))
        ]
      ]
    ],
    λ s. (h x).1 (elim s [
      | inl m ↦ inl (ground (arith, m, elem-append x seen (n ∷ deps)))
      | inr (named m) ↦ elim (Bool-cases (text_eq n x)) [
        | inl f ↦ inl (ground (arith, f, elem-append x seen (n ∷ deps)))
        | inr f ↦ inr (named (rw f at m))
      ]
      | inr (needed k m f) ↦ elim (Bool-cases (text_eq n k)) [
        | inl e ↦
            let found : elem x deps ≡ true =
              (exact x).1 (subst (λ z. DependsOn nodes z x) (sym (eq_of_text_eq n k e)) f) in
            inl (ground (arith, found, elem-append x seen (n ∷ deps)))
        | inr e ↦ inr (needed k (rw e at m) f)
      ]
    ]),
  )

  needed_from-IsNeeded :
      (names seen : List Text) → IsNeeded nodes seen names (needed_from nodes seen names)
  unfolding needed_from elem
  needed_from-IsNeeded [] seen = IsNeeded-nil seen
  needed_from-IsNeeded (n ∷ names) seen = elim (Option-cases (get n nodes)) [
    | inl e ↦ rw (e, needed_from) (rw (text_eq_refl n) refl, rw e refl)
    | inr (node, e) ↦
        let (deps, r, d, exact) = all_deps_of-DependsOn nodes g n (rw e refl) in
        rw (e, needed_from, r)
          (IsNeeded-next seen n deps names exact (needed_from nodes (seen ++ (n ∷ deps)) names)
            (needed_from-IsNeeded names (seen ++ (n ∷ deps))))
  ]

-- The units that a build takes up: all of the graph, or the wanted ones.
abbrev pub IsChosen : Dict Node → List Text → Text → Type 0
IsChosen nodes [] x = has_node nodes x ≡ true
IsChosen nodes (n ∷ names) x = (has_node nodes x ≡ true) × Wanted nodes (n ∷ names) x

-- A part of the order, cut out by a test.
abbrev pub IsPart : Dict Node → List Text → List Text → Result WalkError (List Text) → Type 0
IsPart nodes order names (ok chosen) =
    (test : Text → Bool) × (chosen ≡ keep test order)
    × ((x : Text) → (test x && elem x order) ≡ true ↔ IsChosen nodes names x)
IsPart nodes order names (err (not_found n)) = (elem n names ≡ true) × (has_node nodes n ≡ false)
IsPart nodes order names (err (no_node n)) = ⊥
IsPart nodes order names (err out_of_fuel) = ⊥

module _ (nodes : Dict Node) (g : IsCounted nodes) (order : List Text)
    (o : IsOrder nodes order) where
  filter-IsPart :
      (n : Text) (names : List Text) (r : Result WalkError (List Text))
      → IsNeeded nodes [] (n ∷ names) r
      → needed_from nodes [] (n ∷ names) ≡ r
      → IsPart nodes order (n ∷ names) (filter_build_order nodes order (n ∷ names))
  unfolding filter_build_order elem
  filter-IsPart n names (err (not_found k)) h e = rw (e, filter_build_order) h
  filter-IsPart n names (err (no_node k)) h e = absurd h
  filter-IsPart n names (err out_of_fuel) h e = absurd h
  filter-IsPart n names (ok wanted) h e =
      rw (e, filter_build_order)
        (
          λ x. elem x wanted,
          within-keep wanted order,
          λ x. (
            λ m. (
              sym (o.complete x) ∙ ground (arith, m),
              elim ((h x).0 (ground (arith, m))) [ inl f ↦ absurd (cc) | inr w ↦ w ],
            ),
            λ w.
                let m : elem x wanted ≡ true = (h x).1 (inr w.1) in
                let k : elem x order ≡ true = o.complete x ∙ w.0 in rw (m, k) refl,
          ),
        )

  pub chosen_order-IsPart :
      (names : List Text) → IsPart nodes order names (chosen_order nodes order names)
  unfolding chosen_order
  chosen_order-IsPart [] =
      (λ x. true, sym (keep-all order), λ x. (λ m. sym (o.complete x) ∙ m, λ k. o.complete x ∙ k))
  chosen_order-IsPart (n ∷ names) =
      filter-IsPart n names (needed_from nodes [] (n ∷ names))
        (needed_from-IsNeeded nodes g (n ∷ names) []) refl
