-- ===== src/Common/Worklist/Step.antt =====
-- What one round of the worklist loop adds.
use Prim.Native.Nat.{ℕ, suc, ◌+◌, ◌≤◌}
use mathlib.Core.Path.{◌≡◌, refl}
use mathlib.Core.Logic.{◌⊎◌, inl, inr}
use mathlib.Core.Bool.{true, false}
use mathlib.Core.Option.{Option, none, some}
use mathlib.Core.List.{List, [], ◌∷◌, ◌++◌, Memᴰ}
use mathlib.Core.List.Memᴰ
use native.Mathlib.Omega.{arith}
use yoe.Common.Tests.{if◌then◌else◌, Bool-cases, Option-cases}
use yoe.Common.Texts.{Text, text_eq_iff}
use yoe.Common.Dicts.{elem}
use yoe.Common.Sets.{elem-snoc, elem-snoc_self}
use yoe.Common.Lists.{length, length-append}
use yoe.Common.Worklist.{Search, visit, visit_all}

-- How many names of `names` are not in the queue.
pub unseen : List Text → List Text → ℕ
unseen queue [] = 0
unseen queue (u ∷ us) = if elem u queue then unseen queue us else suc (unseen queue us)

unseen-snoc_le :
    (queue : List Text) (x : Text) (us : List Text) → unseen (queue ++ x ∷ []) us ≤ unseen queue us
unfolding unseen
unseen-snoc_le queue x [] = omega arith
unseen-snoc_le queue x (u ∷ us) = ground (arith, elem-snoc u x queue, unseen-snoc_le queue x us)

pub unseen-snoc :
    (queue : List Text) (x : Text) (us : List Text)
    → elem x queue ≡ false
    → elem x us ≡ true
    → suc (unseen (queue ++ x ∷ []) us) ≤ unseen queue us
unfolding unseen elem
unseen-snoc queue x [] h m = absurd (false_true m)
  where
    false_true : false ≡ true → ⊥
    false_true e = cc
unseen-snoc queue x (u ∷ us) h m =
    ground (
      arith,
      elem-snoc u x queue,
      unseen-snoc_le queue x us,
      unseen-snoc queue x us,
      text_eq_iff u x,
    )

pub unseen_fewer :
    (a b us : List Text)
    → ((x : Text) → elem x a ≡ true → elem x b ≡ true)
    → unseen b us ≤ unseen a us
unfolding unseen
unseen_fewer a b [] h = omega arith
unseen_fewer a b (u ∷ us) h = ground (arith, h u, unseen_fewer a b us h)

pub unseen_le : (queue us : List Text) → unseen queue us ≤ length us
unfolding unseen elem
unseen_le queue [] = omega arith
unseen_le queue (u ∷ us) = ground (arith, unseen_le queue us)

module _ (pick : Text → Option Text) where
  -- What a list of visits leaves and adds.
  pub record Adds (s : Search) (ds : List Text) (t : Search) : Type 0 where
    pub keeps : (z : Text) → elem z s.queue ≡ true → elem z t.queue ≡ true
    pub waits : (z : Text) → elem z s.pending ≡ true → elem z t.pending ≡ true
    pub fresh :
        (z : Text) → elem z t.queue ≡ true → (elem z s.queue ≡ true) ⊎ (elem z t.pending ≡ true)
    pub sound :
        (z : Text)
        → elem z t.queue ≡ true
        → (elem z s.queue ≡ true) ⊎ ((d : Text) × Memᴰ d ds × (pick d ≡ some z))
    pub full : (d z : Text) → Memᴰ d ds → pick d ≡ some z → elem z t.queue ≡ true
    pub queued :
        (z : Text) → elem z t.pending ≡ true → (elem z s.pending ≡ true) ⊎ (elem z t.queue ≡ true)

  Adds-none : (s : Search) (d : Text) → pick d ≡ none → Adds s (d ∷ []) s
  Adds-none s d e = record {
    keeps = λ z h. h;
    waits = λ z h. h;
    fresh = λ z h. inl h;
    sound = λ z h. inl h;
    full = λ c z m p. cc (Memᴰ.eq_of_singleton m);
    queued = λ z h. inl h;
  }

  Adds-seen :
      (s : Search) (d x : Text) → pick d ≡ some x → elem x s.queue ≡ true → Adds s (d ∷ []) s
  Adds-seen s d x e m = record {
    keeps = λ z h. h;
    waits = λ z h. h;
    fresh = λ z h. inl h;
    sound = λ z h. inl h;
    full = λ c z l p. let same : x ≡ z = cc (Memᴰ.eq_of_singleton l) in rw (← same) m;
    queued = λ z h. inl h;
  }

  Adds-new :
      (s : Search) (d x : Text)
      → pick d ≡ some x
      → Adds s (d ∷ []) (record { queue = s.queue ++ (x ∷ []); pending = s.pending ++ (x ∷ []) })
  Adds-new s d x e = record {
    keeps = λ z h. ground (arith, elem-snoc z x s.queue);
    waits = λ z h. ground (arith, elem-snoc z x s.pending);
    fresh = λ z h. ground (arith, elem-snoc z x s.queue, elem-snoc z x s.pending);
    sound = λ z h. elim (Bool-cases (elem z s.queue)) [
      | inl old ↦ inl old
      | inr new ↦
          let same : x ≡ z = ground (arith, elem-snoc z x s.queue, text_eq_iff x z) in
          inr (d, Memᴰ.head refl, cc)
    ];
    full = λ c z l p.
        let same : x ≡ z = cc (Memᴰ.eq_of_singleton l) in rw (← same) (elem-snoc_self x s.queue);
    queued = λ z h. ground (arith, elem-snoc z x s.queue, elem-snoc z x s.pending);
  }

  Adds-visit :
      (deps : Text → List Text) (s : Search) (d : Text) → Adds s (d ∷ []) (visit pick deps s d)
  unfolding visit
  Adds-visit deps s d = elim (Option-cases (pick d)) [
    | inl e ↦ rw (e, visit) (Adds-none s d e)
    | inr (x, e) ↦
        rw (e, visit)
          (elim (Bool-cases (elem x s.queue)) [
            | inl m ↦ rw m (Adds-seen s d x e m)
            | inr m ↦ rw m (Adds-new s d x e)
          ])
  ]

  Adds-join :
      (s t u : Search) (d : Text) (ds : List Text)
      → Adds s (d ∷ []) t
      → Adds t ds u
      → Adds s (d ∷ ds) u
  Adds-join s t u d ds a b = record {
    keeps = λ z h. b.keeps z (a.keeps z h);
    waits = λ z h. b.waits z (a.waits z h);
    fresh = λ z h. elim (b.fresh z h) [
      | inr p ↦ inr p
      | inl q ↦ elim (a.fresh z q) [ inl old ↦ inl old | inr p ↦ inr (b.waits z p) ]
    ];
    sound = λ z h. elim (b.sound z h) [
      | inr (c, m, p) ↦ inr (c, Memᴰ.tail m, p)
      | inl q ↦ elim (a.sound z q) [
        | inl old ↦ inl old
        | inr (c, m, p) ↦ inr (c, Memᴰ.append_left ds m, p)
      ]
    ];
    full = λ c z m p. elim (Memᴰ.cases_cons m) [
      | inl e ↦ b.keeps z (a.full c z (Memᴰ.head e) p)
      | inr l ↦ b.full c z l p
    ];
    queued = λ z h. elim (b.queued z h) [
      | inr q ↦ inr q
      | inl p ↦ elim (a.queued z p) [ inl old ↦ inl old | inr q ↦ inr (b.keeps z q) ]
    ];
  }

  pub visit_all-Adds :
      (deps : Text → List Text) (s : Search) (ds : List Text) → Adds s ds (visit_all pick deps s ds)
  unfolding visit_all
  visit_all-Adds deps s [] = record {
    keeps = λ z h. h;
    waits = λ z h. h;
    fresh = λ z h. inl h;
    sound = λ z h. inl h;
    full = λ c z m p. absurd (Memᴰ.not-nil m);
    queued = λ z h. inl h;
  }
  visit_all-Adds deps s (d ∷ ds) =
      Adds-join s (visit pick deps s d) (visit_all pick deps (visit pick deps s d) ds) d ds
        (Adds-visit deps s d) (visit_all-Adds deps (visit pick deps s d) ds)

  -- A visit makes no more work than it takes from the names that are left.
  module _ (deps : Text → List Text) (names : List Text)
      (known : (d x : Text) → pick d ≡ some x → elem x names ≡ true) where
    visit-work :
        (s : Search) (d : Text)
        → unseen (visit pick deps s d).queue names + length (visit pick deps s d).pending
          ≤ unseen s.queue names + length s.pending
    unfolding visit
    visit-work s d = elim (Option-cases (pick d)) [
      | inl e ↦ rw (e, visit) (omega arith)
      | inr (x, e) ↦
          rw (e, visit)
            (elim (Bool-cases (elem x s.queue)) [
              | inl m ↦ rw m (omega arith)
              | inr m ↦ rw m (
                  omega (
                    arith,
                    unseen-snoc s.queue x names m (known d x e),
                    length-append s.pending (x ∷ []),
                  ))
            ])
    ]

    pub visit_all-work :
        (s : Search) (ds : List Text)
        → unseen (visit_all pick deps s ds).queue names + length (visit_all pick deps s ds).pending
          ≤ unseen s.queue names + length s.pending
    unfolding visit_all
    visit_all-work s [] = omega arith
    visit_all-work s (d ∷ ds) =
        omega (arith, visit_all-work (visit pick deps s d) ds, visit-work s d)
