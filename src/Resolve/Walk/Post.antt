-- ===== src/Resolve/Walk/Post.antt =====
-- `TransitiveDeps` ends, and lists what a unit depends on with dependencies first.
use yoe.Common.{
  Bool-cases, Distinct, elem-snoc_self, elem-snoc, Distinct-snoc, ℕ, zero, suc, ◌≤◌, ◌≡◌, refl, ◌∙◌,
  subst, ◌⊎◌, inl, inr, true, false, some, List, [], ◌∷◌, ◌++◌, arith, text_eq_refl, eq_of_text_eq,
  text_eq_iff, Text, text_eq, elem,
}
use yoe.Common.Worklist.Step.{unseen, unseen-snoc, unseen_fewer}
use yoe.Resolve.Walk.{Visit, post_from}
use yoe.Resolve.Walk.Reach.{Follows, first, then_on}

module _ (next : Text → List Text) (names : List Text)
    (closed : (x y : Text)
      → elem x names ≡ true
      → elem y (next x) ≡ true
      → elem y names ≡ true) where
  pub record Posted (s : Visit) (ds : List Text) (t : Visit) : Type 0 where
    pub seen : (x : Text) → elem x s.visited ≡ true → elem x t.visited ≡ true
    pub kept : (x : Text) → elem x s.result ≡ true → elem x t.result ≡ true
    pub covers : (x : Text) → elem x ds ≡ true → elem x t.visited ≡ true
    pub sound : (x : Text) → elem x t.visited ≡ true → (elem x s.visited ≡ true) ⊎ Follows next ds x
    -- what is new is listed, and what is listed is old or new
    pub listed :
        (x : Text) → elem x t.visited ≡ true → elem x s.visited ≡ false → elem x t.result ≡ true
    pub fresh :
        (x : Text)
        → elem x t.result ≡ true
        → elem x s.result ≡ false
        → (elem x s.visited ≡ false) × (elem x t.visited ≡ true)
    pub followed :
        (x y : Text)
        → elem x t.visited ≡ true
        → elem x s.visited ≡ false
        → elem y (next x) ≡ true
        → elem y t.visited ≡ true
    pub distinct : Distinct s.result → Distinct t.result

  Follows-more :
      (d : Text) (ds : List Text) {x : Text} → Follows next ds x → Follows next (d ∷ ds) x
  unfolding elem
  Follows-more d ds (first m) = first (ground (arith, m))
  Follows-more d ds (then_on f m) = then_on (Follows-more d ds f) m

  Follows-below :
      (d : Text) (ds : List Text) {x : Text} → Follows next (next d) x → Follows next (d ∷ ds) x
  unfolding elem
  Follows-below d ds (first m) = then_on (first (ground (arith, text_eq_refl d))) m
  Follows-below d ds (then_on f m) = then_on (Follows-below d ds f) m

  Posted-nil : (s : Visit) → Posted s [] s
  unfolding elem
  Posted-nil s = record {
    seen = λ x m. m;
    kept = λ x m. m;
    covers = λ x m. absurd (cc);
    sound = λ x m. inl m;
    listed = λ x m n. cc;
    fresh = λ x m n. absurd (cc);
    followed = λ x y m n e. cc;
    distinct = λ d. d;
  }

  Posted-old :
      (s t : Visit) (d : Text) (ds : List Text)
      → elem d s.visited ≡ true
      → Posted s ds t
      → Posted s (d ∷ ds) t
  unfolding elem
  Posted-old s t d ds old p = record {
    seen = p.seen;
    kept = p.kept;
    covers = λ x m. ground (arith, m, p.covers x, p.seen d old, text_eq_iff d x);
    sound = λ x m. elim (p.sound x m) [ inl e ↦ inl e | inr f ↦ inr (Follows-more d ds f) ];
    listed = p.listed;
    fresh = p.fresh;
    followed = p.followed;
    distinct = p.distinct;
  }

  module _ (s t u : Visit) (d : Text) (ds : List Text) (new : elem d s.visited ≡ false)
      (below : (x : Text) → elem x s.result ≡ true → elem x s.visited ≡ true)
      (p : Posted (record { visited = s.visited ++ (d ∷ []); result = s.result }) (next d) t)
      (q : Posted (record { visited = t.visited; result = t.result ++ (d ∷ []) }) ds u) where
    entered : (x : Text) → elem x (s.visited ++ (d ∷ [])) ≡ true → elem x t.visited ≡ true
    entered x m = p.seen x m

    d_seen : elem d t.visited ≡ true
    d_seen = entered d (elem-snoc_self d s.visited)

    not_listed : elem d t.result ≡ false
    not_listed = elim (Bool-cases (elem d t.result)) [
      | inr e ↦ e
      | inl e ↦ elim (Bool-cases (elem d s.result)) [
        | inl f ↦ cc (below d f, new)
        | inr f ↦ cc ((p.fresh d e f).0, elem-snoc_self d s.visited)
      ]
    ]

    unseen_before : (x : Text) → elem x t.visited ≡ false → elem x s.visited ≡ false
    unseen_before x a = elim (Bool-cases (elem x s.visited)) [
      | inr e ↦ e
      | inl e ↦ cc (entered x (elem-snoc x d s.visited ∙ rw e refl), a)
    ]

    Posted-new : Posted s (d ∷ ds) u
    unfolding elem
    Posted-new = record {
      seen = λ x m. q.seen x (entered x (ground (arith, elem-snoc x d s.visited, m)));
      kept = λ x m. q.kept x (ground (arith, elem-snoc x d t.result, p.kept x m));
      covers = λ x m. elim (Bool-cases (text_eq d x)) [
        | inl e ↦ q.seen x (subst (λ z. elem z t.visited ≡ true) (eq_of_text_eq d x e) d_seen)
        | inr e ↦ q.covers x (rw e at m)
      ];
      sound = λ x m. elim (q.sound x m) [
        | inr f ↦ inr (Follows-more d ds f)
        | inl n ↦ elim (p.sound x n) [
          | inr f ↦ inr (Follows-below d ds f)
          | inl o ↦ elim (Bool-cases (text_eq d x)) [
            | inl e ↦ inr (first (rw e refl))
            | inr e ↦ inl (ground (arith, elem-snoc x d s.visited, e, o))
          ]
        ]
      ];
      listed = λ x m n. elim (Bool-cases (elem x t.visited)) [
        | inr e ↦ q.listed x m e
        | inl e ↦ elim (Bool-cases (text_eq d x)) [
          | inl f ↦ q.kept x (ground (arith, elem-snoc x d t.result, f))
          | inr f ↦ q.kept x (
              ground (
                arith,
                elem-snoc x d t.result,
                p.listed x e (ground (arith, elem-snoc x d s.visited, f, n)),
              ))
        ]
      ];
      fresh = λ x m n. elim (Bool-cases (text_eq d x)) [
        | inl e ↦
            subst (λ z. (elem z s.visited ≡ false) × (elem z u.visited ≡ true))
              (eq_of_text_eq d x e) (new, q.seen d d_seen)
        | inr e ↦ elim (Bool-cases (elem x t.result)) [
          | inl f ↦
              let (a, b) = p.fresh x f n in (ground (arith, elem-snoc x d s.visited, a), q.seen x b)
          | inr f ↦
              let (a, b) = q.fresh x m (ground (arith, elem-snoc x d t.result, e, f)) in
              (unseen_before x a, b)
        ]
      ];
      followed = λ x y m n e. elim (Bool-cases (elem x t.visited)) [
        | inr o ↦ q.followed x y m o e
        | inl o ↦ elim (Bool-cases (text_eq d x)) [
          | inl same ↦ q.seen y (p.covers y (rw (eq_of_text_eq d x same) e))
          | inr other ↦
              q.seen y (p.followed x y o (ground (arith, elem-snoc x d s.visited, other, n)) e)
        ]
      ];
      distinct = λ h. q.distinct (Distinct-snoc d t.result (p.distinct h) not_listed);
    }

  unfoldable pub Below : Visit → Type 0
  Below s = (x : Text) → elem x s.result ≡ true → elem x s.visited ≡ true

  pub Below-Posted : (s t : Visit) (ds : List Text) → Below s → Posted s ds t → Below t
  unfolding Below
  Below-Posted s t ds b p x m = elim (Bool-cases (elem x s.result)) [
    | inl e ↦ p.seen x (b x e)
    | inr e ↦ (p.fresh x m e).1
  ]

  pub Below-snoc :
      (d : Text) (t : Visit)
      → elem d t.visited ≡ true
      → Below t
      → Below (record { visited = t.visited; result = t.result ++ (d ∷ []) })
  unfolding Below
  Below-snoc d t v b x m = elim (Bool-cases (text_eq d x)) [
    | inl e ↦ subst (λ z. elem z t.visited ≡ true) (eq_of_text_eq d x e) v
    | inr e ↦ b x (ground (arith, elem-snoc x d t.result, e, m))
  ]

  -- Enough fuel: the number of the names that are not visited yet.
  pub post_from-Posted :
      (fuel : ℕ) (s : Visit) (ds : List Text)
      → unseen s.visited names ≤ fuel
      → ((x : Text) → elem x ds ≡ true → elem x names ≡ true)
      → Below s
      → (t : Visit) × (post_from next fuel s ds ≡ some t) × Posted s ds t
  unfolding post_from elem Below
  post_from-Posted fuel s [] h k b = (s, elim fuel [ zero ↦ refl | suc _ ↦ refl ], Posted-nil s)
  post_from-Posted zero s (d ∷ ds) h k b =
      let in_names : elem d names ≡ true = k d (rw (text_eq_refl d) refl) in
      let (t, r, p) = post_from-Posted zero s ds h (λ x m. k x (ground arith)) b in
      elim (Bool-cases (elem d s.visited)) [
        | inl e ↦ (t, rw e r, Posted-old s t d ds e p)
        | inr e ↦ absurd (omega (arith, unseen-snoc s.visited d names e in_names))
      ]
  post_from-Posted (suc fuel) s (d ∷ ds) h k b =
      let in_names : elem d names ≡ true = k d (rw (text_eq_refl d) refl) in
      let later : (x : Text) → elem x ds ≡ true → elem x names ≡ true = λ x m. k x (ground arith) in
      elim (Bool-cases (elem d s.visited)) [
        | inl e ↦
            let (t, r, p) = post_from-Posted (suc fuel) s ds h later b in
            (t, rw (e, post_from) r, Posted-old s t d ds e p)
        | inr e ↦
            let entry : Visit = record { visited = s.visited ++ (d ∷ []); result = s.result } in
            let under : Below entry = λ x m. elem-snoc x d s.visited ∙ rw (b x m) refl in
            let (t, r, p) =
              post_from-Posted fuel entry (next d)
                (omega (arith, unseen-snoc s.visited d names e in_names))
                (λ x m. closed d x in_names m) under in
            let after : Visit = record { visited = t.visited; result = t.result ++ (d ∷ []) } in
            let grown : unseen t.visited names ≤ suc fuel = omega (
              arith,
              unseen_fewer s.visited t.visited names
                  (λ x m. p.seen x (elem-snoc x d s.visited ∙ rw m refl)),
            ) in
            let above : Below after =
              Below-snoc d t (p.seen d (elem-snoc_self d s.visited))
                (Below-Posted entry t (next d) under p) in
            let (u, r', q) = post_from-Posted (suc fuel) after ds grown later above in
            (u, rw (e, post_from, r) r', Posted-new s t u d ds e b p q)
      ]
