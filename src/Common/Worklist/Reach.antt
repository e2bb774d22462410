-- ===== src/Common/Worklist/Reach.antt =====
-- The worklist loop ends, and its queue holds exactly the names that can be reached.
use Prim.Native.Nat.{ℕ, zero, suc, ◌+◌, ◌≤◌}
use mathlib.Core.Path.{◌≡◌, refl, subst, sym, ap}
use mathlib.Core.Logic.{◌⊎◌, inl, inr, ◌↔◌}
use mathlib.Core.Bool.{true}
use mathlib.Core.Option.{Option, some}
use mathlib.Core.List.{List, [], ◌∷◌, Memᴰ}
use native.Mathlib.Omega.{arith}
use yoe.Common.Texts.{Text, text_eq_iff}
use yoe.Common.Dicts.{elem}
use yoe.Common.Lists.{length}
use yoe.Common.Worklist.{Search, visit_all, expand, run}
use yoe.Common.Worklist.Step.{unseen, visit_all-Adds, visit_all-work}

-- A name is reached from the names of the first queue by dependencies that lead somewhere.
pub data Reaches (pick : Text → Option Text) (deps : Text → List Text) (start : List Text)
    : Text → Type 0 where
  starts : {x : Text} → elem x start ≡ true → Reaches pick deps start x
  follows :
      {x y d : Text}
      → Reaches pick deps start x
      → Memᴰ d (deps x)
      → pick d ≡ some y
      → Reaches pick deps start y

module _ (pick : Text → Option Text) (deps : Text → List Text) (start : List Text) where
  record Inv (queue pending : List Text) : Type 0 where
    begun : (z : Text) → elem z start ≡ true → elem z queue ≡ true
    sound : (z : Text) → elem z queue ≡ true → Reaches pick deps start z
    queued : (z : Text) → elem z pending ≡ true → elem z queue ≡ true
    closed :
        (z d y : Text)
        → elem z queue ≡ true
        → Memᴰ d (deps z)
        → pick d ≡ some y
        → (elem z pending ≡ true) ⊎ (elem y queue ≡ true)

  elem-cons_cases :
      (z x : Text) (xs : List Text) → elem z (x ∷ xs) ≡ true → (x ≡ z) ⊎ (elem z xs ≡ true)
  unfolding elem
  elem-cons_cases z x xs h = ground (arith, text_eq_iff x z)

  elem-cons_self : (x : Text) (xs : List Text) → elem x (x ∷ xs) ≡ true
  unfolding elem
  elem-cons_self x xs = ground (arith, text_eq_iff x x)

  elem-cons_of_elem : (z x : Text) (xs : List Text) → elem z xs ≡ true → elem z (x ∷ xs) ≡ true
  unfolding elem
  elem-cons_of_elem z x xs h = ground arith

  Inv-expand :
      (queue : List Text) (x : Text) (rest : List Text)
      → Inv queue (x ∷ rest)
      → Inv (expand pick deps queue x rest).queue (expand pick deps queue x rest).pending
  unfolding expand
  Inv-expand queue x rest inv =
      let s : Search = record { queue = queue; pending = rest } in
      let a = visit_all-Adds pick deps s (deps x) in
      let t = visit_all pick deps s (deps x) in
      let to_x = inv.sound x (inv.queued x (elem-cons_self x rest)) in
      record {
        begun = λ z h. a.keeps z (inv.begun z h);
        sound = λ z h. elim (a.sound z h) [
          | inl old ↦ inv.sound z old
          | inr (d, m, p) ↦ follows to_x m p
        ];
        queued = λ z h. elim (a.queued z h) [
          | inl old ↦ a.keeps z (inv.queued z (elem-cons_of_elem z x rest old))
          | inr new ↦ new
        ];
        closed = λ z d y h m p. elim (a.fresh z h) [
          | inr waiting ↦ inl waiting
          | inl old ↦ elim (inv.closed z d y old m p) [
            | inr done ↦ inr (a.keeps y done)
            | inl waiting ↦ elim (elem-cons_cases z x rest waiting) [
              | inl e ↦ inr (a.full d y (subst (λ w. Memᴰ d (deps w)) (sym e) m) p)
              | inr later ↦ inl (a.waits z later)
            ]
          ]
        ];
      }

  List-cases : (xs : List Text) → (xs ≡ []) ⊎ ((x : Text) × (rest : List Text) × (xs ≡ x ∷ rest))
  List-cases [] = inl refl
  List-cases (x ∷ rest) = inr (x, rest, refl)

  run-Inv :
      (fuel : ℕ) (s : Search) (out : List Text)
      → Inv s.queue s.pending
      → run pick deps fuel s ≡ some out
      → Inv out []
  unfolding run
  run-Inv zero s out inv h = elim (List-cases s.pending) [
    | inl e ↦
        let same : s.queue ≡ out = ground arith in
        subst (λ q. Inv q []) same (subst (Inv s.queue) e inv)
    | inr (x, rest, e) ↦ ground arith
  ]
  run-Inv (suc fuel) s out inv h = elim (List-cases s.pending) [
    | inl e ↦
        let same : s.queue ≡ out = ground arith in
        subst (λ q. Inv q []) same (subst (Inv s.queue) e inv)
    | inr (x, rest, e) ↦
        run-Inv fuel (expand pick deps s.queue x rest) out
          (Inv-expand s.queue x rest (subst (Inv s.queue) e inv)) (rw (e, run) at h)
  ]

  -- The loop ends where the fuel covers what is pending and the names that are left.
  pub run_ends :
      (names : List Text)
      → ((d x : Text) → pick d ≡ some x → elem x names ≡ true)
      → (fuel : ℕ) (s : Search) → unseen s.queue names + length s.pending ≤ fuel
      → (out : List Text) × (run pick deps fuel s ≡ some out)
  unfolding run
  run_ends names known zero s h = elim (List-cases s.pending) [
    | inl e ↦ (s.queue, rw (e, run))
    | inr (x, rest, e) ↦ absurd (omega (arith, ap length e))
  ]
  run_ends names known (suc fuel) s h = elim (List-cases s.pending) [
    | inl e ↦ (s.queue, rw (e, run))
    | inr (x, rest, e) ↦
        let t : Search = record { queue = s.queue; pending = rest } in
        let work = visit_all-work pick deps names known t (deps x) in
        let (out, ends) =
          run_ends names known fuel (expand pick deps s.queue x rest)
            (unfold expand in omega (arith, work, ap length e)) in
        (out, rw (e, run) ends)
  ]

  -- Every name of the start is in the queue at the end, and so is exactly what it reaches.
  pub run-Reaches :
      (fuel : ℕ) (out : List Text)
      → run pick deps fuel (record { queue = start; pending = start }) ≡ some out
      → (x : Text) → elem x out ≡ true ↔ Reaches pick deps start x
  run-Reaches fuel out h x = (inv.sound x, into)
    where
      first : Inv start start
      first = record {
        begun = λ z h. h;
        sound = λ z h. starts h;
        queued = λ z h. h;
        closed = λ z d y h m p. inl h;
      }

      inv : Inv out []
      inv = run-Inv fuel _ out first h

      not_nil : (z : Text) → elem z [] ≡ true → ⊥
      not_nil z h = unfold elem in cc

      into : {z : Text} → Reaches pick deps start z → elem z out ≡ true
      into (starts m) = inv.begun _ m
      into (follows {x} {y} {d} r m p) = elim (inv.closed x d y (into r) m p) [
        | inl waiting ↦ absurd (not_nil x waiting)
        | inr done ↦ done
      ]
