-- ===== src/Resolve/Walk/Reach.antt =====
-- The walks end, and find exactly what the edges lead to.
use yoe.Common.{
  Bool-cases, length, ok, Distinct, elem-snoc, Distinct-snoc, count-of_Distinct, Distinct-of_count,
  sort_strings, count-sort_strings, elem-sort_strings, ℕ, zero, suc, ◌≤◌, ◌≡◌, refl, sym, ◌∙◌, ◌↔◌,
  ◌⊎◌, inl, inr, true, false, Option, some, List, [], ◌∷◌, ◌++◌, arith, text_eq_refl, eq_of_text_eq,
  text_eq_iff, Text, text_eq, elem,
}
use yoe.Common.Worklist.Step.{unseen, unseen-snoc, unseen_le, unseen_fewer}
use yoe.Resolve.Walk.{walk_from, walk_of}

-- What the edges lead to from a list of names, those names included.
pub data Follows (next : Text → List Text) (from : List Text) : Text → Type 0 where
  first : {x : Text} → elem x from ≡ true → Follows next from x
  then_on : {x y : Text} → Follows next from x → elem y (next x) ≡ true → Follows next from y

module _ (edges : Text → Option (List Text)) (next : Text → List Text) (names : List Text)
    (known : (x : Text) → elem x names ≡ true → edges x ≡ some (next x))
    (closed : (x y : Text)
      → elem x names ≡ true
      → elem y (next x) ≡ true
      → elem y names ≡ true) where
  record Walked (result ds out : List Text) : Type 0 where
    kept : (x : Text) → elem x result ≡ true → elem x out ≡ true
    covers : (x : Text) → elem x ds ≡ true → elem x out ≡ true
    sound : (x : Text) → elem x out ≡ true → (elem x result ≡ true) ⊎ Follows next ds x
    followed :
        (x y : Text)
        → elem x out ≡ true
        → elem x result ≡ false
        → elem y (next x) ≡ true
        → elem y out ≡ true
    distinct : Distinct result → Distinct out

  Follows-more :
      (d : Text) (ds : List Text) {x : Text} → Follows next ds x → Follows next (d ∷ ds) x
  unfolding elem
  Follows-more d ds (first m) = first (ground (arith, m))
  Follows-more d ds (then_on f m) = then_on (Follows-more d ds f) m

  Follows-below :
      (d : Text) (ds : List Text) {x : Text} → Follows next (next d) x → Follows next (d ∷ ds) x
  unfolding elem
  Follows-below d ds (first m) = then_on (first (ground (arith, text_eq_refl d))) m
  Follows-below d ds (then_on f m) = then_on (Follows-below d ds f) m

  Walked-nil : (result : List Text) → Walked result [] result
  unfolding elem
  Walked-nil result = record {
    kept = λ x m. m;
    covers = λ x m. absurd (cc);
    sound = λ x m. inl m;
    followed = λ x y m n e. cc;
    distinct = λ d. d;
  }

  Walked-old :
      (result ds out : List Text) (d : Text)
      → elem d result ≡ true
      → Walked result ds out
      → Walked result (d ∷ ds) out
  unfolding elem
  Walked-old result ds out d old w = record {
    kept = w.kept;
    covers = λ x m. ground (arith, m, w.covers x, w.kept d old, text_eq_iff d x);
    sound = λ x m. elim (w.sound x m) [ inl e ↦ inl e | inr f ↦ inr (Follows-more d ds f) ];
    followed = w.followed;
    distinct = w.distinct;
  }

  Walked-new :
      (result ds found out : List Text) (d : Text)
      → elem d result ≡ false
      → Walked (result ++ (d ∷ [])) (next d) found
      → Walked found ds out
      → Walked result (d ∷ ds) out
  unfolding elem
  Walked-new result ds found out d new v w = record {
    kept = λ x m. w.kept x (v.kept x (ground (arith, elem-snoc x d result, m)));
    covers = λ x m. elim (Bool-cases (text_eq d x)) [
      | inl e ↦ w.kept x (v.kept x (ground (arith, elem-snoc x d result, e)))
      | inr e ↦ w.covers x (rw e at m)
    ];
    sound = λ x m. elim (w.sound x m) [
      | inr f ↦ inr (Follows-more d ds f)
      | inl n ↦ elim (v.sound x n) [
        | inr f ↦ inr (Follows-below d ds f)
        | inl o ↦ elim (Bool-cases (text_eq d x)) [
          | inl e ↦ inr (first (rw e refl))
          | inr e ↦ inl (ground (arith, elem-snoc x d result, e, o))
        ]
      ]
    ];
    followed = λ x y m n e. elim (Bool-cases (elem x found)) [
      | inr o ↦ w.followed x y m o e
      | inl o ↦ elim (Bool-cases (text_eq d x)) [
        | inl same ↦ w.kept y (v.covers y (rw (eq_of_text_eq d x same) e))
        | inr other ↦ w.kept y (v.followed x y o (ground (arith, elem-snoc x d result, other, n)) e)
      ]
    ];
    distinct = λ h. w.distinct (v.distinct (Distinct-snoc d result h new));
  }

  -- Enough fuel: the number of the names that are not found yet.
  walk_from-Walked :
      (fuel : ℕ) (result ds : List Text)
      → unseen result names ≤ fuel
      → ((x : Text) → elem x ds ≡ true → elem x names ≡ true)
      → (out : List Text) × (walk_from edges fuel result ds ≡ ok out) × Walked result ds out
  unfolding walk_from elem
  walk_from-Walked fuel result [] h k =
      (result, elim fuel [ zero ↦ refl | suc _ ↦ refl ], Walked-nil result)
  walk_from-Walked zero result (d ∷ ds) h k =
      let in_names : elem d names ≡ true = k d (rw (text_eq_refl d) refl) in
      let (out, r, w) = walk_from-Walked zero result ds h (λ x m. k x (ground arith)) in
      elim (Bool-cases (elem d result)) [
        | inl e ↦ (out, rw e r, Walked-old result ds out d e w)
        | inr e ↦ absurd (omega (arith, unseen-snoc result d names e in_names))
      ]
  walk_from-Walked (suc fuel) result (d ∷ ds) h k =
      let in_names : elem d names ≡ true = k d (rw (text_eq_refl d) refl) in
      let later : (x : Text) → elem x ds ≡ true → elem x names ≡ true = λ x m. k x (ground arith) in
      elim (Bool-cases (elem d result)) [
        | inl e ↦
            let (out, r, w) = walk_from-Walked (suc fuel) result ds h later in
            (out, rw (e, walk_from) r, Walked-old result ds out d e w)
        | inr e ↦
            let (found, q, v) =
              walk_from-Walked fuel (result ++ (d ∷ [])) (next d)
                (omega (arith, unseen-snoc result d names e in_names))
                (λ x m. closed d x in_names m) in
            let grown : unseen found names ≤ suc fuel = omega (
              arith,
              unseen_fewer result found names
                  (λ x m. v.kept x (ground (arith, elem-snoc x d result, m))),
            ) in
            let (out, r, w) = walk_from-Walked (suc fuel) found ds grown later in
            (out, rw (e, walk_from, known d in_names, q) r, Walked-new result ds found out d e v w)
      ]

  -- What is found is closed under the edges.
  Follows-found :
      (ds out : List Text) → Walked [] ds out → {x : Text} → Follows next ds x → elem x out ≡ true
  unfolding elem
  Follows-found ds out w {x} (first m) = w.covers x m
  Follows-found ds out w {x} (then_on {x = z} f m) =
      w.followed z x (Follows-found ds out w f) refl m

  pub walk_of-Follows :
      (name : Text)
      → elem name names ≡ true
      → (out : List Text) × (walk_of edges (length names) name ≡ ok out)
        × Distinct out
        × ((x : Text) → elem x out ≡ true ↔ Follows next (next name) x)
  unfolding walk_of elem
  walk_of-Follows name m =
      let (found, r, w) =
        walk_from-Walked (length names) [] (next name) (unseen_le [] names)
          (λ x n. closed name x m n) in
      (
        sort_strings found,
        rw (known name m, walk_of, r) refl,
        Distinct-sort_strings found (w.distinct tt),
        λ x. (
          λ n. elim (w.sound x (sym (elem-sort_strings x found) ∙ n)) [
            | inl e ↦ absurd (cc)
            | inr f ↦ f
          ],
          λ f. elem-sort_strings x found ∙ Follows-found (next name) found w f,
        ),
      )
    where
      Distinct-sort_strings : (xs : List Text) → Distinct xs → Distinct (sort_strings xs)
      Distinct-sort_strings xs d =
          Distinct-of_count (sort_strings xs)
            (λ k. ground (arith, count-sort_strings k xs, count-of_Distinct k xs d))
