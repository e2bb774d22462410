-- ===== src/Resolve/Walk/Down.antt =====
-- The order in which `TransitiveDeps` lists what it finds.
use yoe.Common.{
  Bool-cases, some_inj, elem-snoc_self, elem-snoc, ℕ, zero, suc, ◌≤◌, ◌<◌, ◌≡◌, refl, ap, ◌∙◌,
  subst, ◌⊎◌, inl, inr, true, some, List, [], ◌∷◌, ◌++◌, arith, text_eq_refl, eq_of_text_eq, Text,
  text_eq, elem,
}
use yoe.Common.Worklist.Step.{unseen, unseen-snoc, unseen_fewer}
use yoe.Common.Kahn.Ordered.{Ordered, Ordered-snoc}
use yoe.Resolve.Walk.{Visit, post_from}
use yoe.Resolve.Walk.Post.{Posted, Below, Below-Posted, Below-snoc, post_from-Posted}

module _ (next : Text → List Text) (names : List Text)
    (closed : (x y : Text)
      → elem x names ≡ true
      → elem y (next x) ≡ true
      → elem y names ≡ true) where
  -- Where the edges only lead down, what is listed is in order.
  module _ (rank : Text → ℕ) (drops : (x y : Text) → elem y (next x) ≡ true → rank y < rank x) where
    -- What is visited and not listed yet is not below `b`.
    abbrev Waits : ℕ → Visit → Type 0
    Waits b s = (x : Text) → elem x s.visited ≡ true → (elem x s.result ≡ true) ⊎ (b ≤ rank x)

    all_listed :
        (d : Text) (s t : Visit) (b : ℕ)
        → Waits b s
        → rank d < b
        → Posted next names closed
            (record { visited = s.visited ++ (d ∷ []); result = s.result })
            (next d)
            t
        → (y : Text) → elem y (next d) ≡ true
        → elem y t.result ≡ true
    all_listed d s t b w low p y m = elim (Bool-cases (elem y (s.visited ++ (d ∷ [])))) [
      | inr e ↦ p.listed y (p.covers y m) e
      | inl e ↦ elim (Bool-cases (text_eq d y)) [
        | inl f ↦ absurd (omega (arith, drops d y m, ap rank (eq_of_text_eq d y f)))
        | inr f ↦ elim (w y (ground (arith, elem-snoc y d s.visited, e, f))) [
          | inl o ↦ p.kept y o
          | inr o ↦ absurd (omega (arith, o, low, drops d y m))
        ]
      ]
    ]

    pub post_from-Ordered :
        (fuel : ℕ) (s : Visit) (ds : List Text) (u : Visit) (b : ℕ)
        → unseen s.visited names ≤ fuel
        → ((x : Text) → elem x ds ≡ true → elem x names ≡ true)
        → Below next names closed s
        → post_from next fuel s ds ≡ some u
        → Waits b s
        → ((x : Text) → elem x ds ≡ true → rank x < b)
        → Ordered next [] s.result
        → Ordered next [] u.result
    unfolding post_from elem Below
    post_from-Ordered zero s [] u b h k under r w low o =
        subst (λ (z : Visit). Ordered next [] z.result) (some_inj r) o
    post_from-Ordered (suc fuel) s [] u b h k under r w low o =
        subst (λ (z : Visit). Ordered next [] z.result) (some_inj r) o
    post_from-Ordered zero s (d ∷ ds) u b h k under r w low o =
        let in_names : elem d names ≡ true = k d (rw (text_eq_refl d) refl) in
        elim (Bool-cases (elem d s.visited)) [
          | inl e ↦
              post_from-Ordered zero s ds u b h (λ x m. k x (ground arith)) under (rw e at r) w
                (λ x m. low x (ground arith)) o
          | inr e ↦ absurd (omega (arith, unseen-snoc s.visited d names e in_names))
        ]
    post_from-Ordered (suc fuel) s (d ∷ ds) u b h k under r w low o =
        let in_names : elem d names ≡ true = k d (rw (text_eq_refl d) refl) in
        let later : (x : Text) → elem x ds ≡ true → elem x names ≡ true =
          λ x m. k x (ground arith) in
        let lower : (x : Text) → elem x ds ≡ true → rank x < b = λ x m. low x (ground arith) in
        let here : rank d < b = low d (rw (text_eq_refl d) refl) in
        elim (Bool-cases (elem d s.visited)) [
          | inl e ↦
              post_from-Ordered (suc fuel) s ds u b h later under (rw (e, post_from) at r) w lower o
          | inr e ↦
              let entry : Visit = record { visited = s.visited ++ (d ∷ []); result = s.result } in
              let room : unseen entry.visited names ≤ fuel =
                omega (arith, unseen-snoc s.visited d names e in_names) in
              let inside : (x : Text) → elem x (next d) ≡ true → elem x names ≡ true =
                λ x m. closed d x in_names m in
              let below : Below next names closed entry =
                λ x m. elem-snoc x d s.visited ∙ rw (under x m) refl in
              let (t, r', p) =
                post_from-Posted next names closed fuel entry (next d) room inside below in
              let inner =
                post_from-Ordered fuel entry (next d) t (rank d) room inside below r'
                  (λ x m. waits_inside d s b w here x m) (λ x m. drops d x m) o in
              let after : Visit = record { visited = t.visited; result = t.result ++ (d ∷ []) } in
              let grown : unseen t.visited names ≤ suc fuel = omega (
                arith,
                unseen_fewer s.visited t.visited names
                    (λ x m. p.seen x (elem-snoc x d s.visited ∙ rw m refl)),
              ) in
              post_from-Ordered (suc fuel) after ds u b grown later
                (Below-snoc next names closed d t (p.seen d (elem-snoc_self d s.visited))
                  (Below-Posted next names closed entry t (next d) below p))
                (rw (e, post_from, r') at r) (λ x m. waits_after d s t b w p x m) lower
                (Ordered-snoc next t.result [] d inner (all_listed d s t b w here p))
        ]
      where
        waits_inside :
            (d : Text) (s : Visit) (b : ℕ)
            → Waits b s
            → rank d < b
            → Waits (rank d) (record { visited = s.visited ++ (d ∷ []); result = s.result })
        waits_inside d s b w here x m = elim (Bool-cases (text_eq d x)) [
          | inl e ↦ inr (omega (arith, ap rank (eq_of_text_eq d x e)))
          | inr e ↦ elim (w x (ground (arith, elem-snoc x d s.visited, m, e))) [
            | inl a ↦ inl a
            | inr a ↦ inr (omega (arith, a, here))
          ]
        ]

        waits_after :
            (d : Text) (s t : Visit) (b : ℕ)
            → Waits b s
            → Posted next names closed
                (record { visited = s.visited ++ (d ∷ []); result = s.result })
                (next d)
                t
            → Waits b (record { visited = t.visited; result = t.result ++ (d ∷ []) })
        waits_after d s t b w p x m = elim (Bool-cases (text_eq d x)) [
          | inl e ↦ inl (elem-snoc x d t.result ∙ ground (arith, e))
          | inr e ↦ elim (Bool-cases (elem x s.visited)) [
            | inr n ↦ inl (
                elem-snoc x d t.result
                ∙ rw (p.listed x m (elem-snoc x d s.visited ∙ rw (n, e) refl)) refl)
            | inl n ↦ elim (w x n) [
              | inl a ↦ inl (elem-snoc x d t.result ∙ rw (p.kept x a) refl)
              | inr a ↦ inr a
            ]
          ]
        ]
