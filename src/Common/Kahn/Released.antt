-- ===== src/Common/Kahn/Released.antt =====
-- What the counts say while names are taken out of the pool.
use yoe.Common.{
  ltb, ◌==◌, if◌then◌else◌, Bool-cases, length, elem-snoc, ℤ, pred, is_zero, is_positive, pos,
  one_if, count, count-snoc, elem-count, ℕ, zero, suc, ◌+◌, ◌<◌, ◌≡◌, refl, sym, ap, ◌∙◌, inl, inr,
  Bool, true, false, not, ◌&&◌, List, [], ◌∷◌, ◌++◌, arith, text_eq_refl, eq_of_text_eq,
  text_eq_iff, Text, text_eq, get-put, Dict, elem,
}
use yoe.Common.Kahn.{degree, count_down}

-- How many of the dependencies are not done.
unfoldable pub left : List Text → List Text → ℕ
left [] done = 0
left (d ∷ ds) done = one_if (not (elem d done)) + left ds done

pub left-nil : (ds : List Text) → left ds [] ≡ length ds
unfolding left elem
left-nil [] = refl
left-nil (d ∷ ds) = omega (arith, left-nil ds)

pub left-snoc :
    (ds done : List Text) (x : Text)
    → elem x done ≡ false
    → left ds done ≡ left ds (done ++ (x ∷ [])) + count x ds
unfolding left count
left-snoc [] done x h = refl
left-snoc (d ∷ ds) done x h =
    ground (arith, left-snoc ds done x h, elem-snoc d x done, text_eq_iff x d, text_eq_iff d x)

pub left-zero :
    (ds done : List Text) → left ds done ≡ 0 → (y : Text) → elem y ds ≡ true → elem y done ≡ true
unfolding left elem
left-zero [] done h y m = cc
left-zero (d ∷ ds) done h y m =
    ground (arith, left-zero ds done (omega (arith, h)) y, text_eq_iff d y)

-- A dependency that is not done.
pub left-positive :
    (ds done : List Text)
    → 0 < left ds done
    → (y : Text) × (elem y ds ≡ true) × (elem y done ≡ false)
unfolding left elem
left-positive [] done h = absurd (omega (arith, h))
left-positive (d ∷ ds) done h = elim (Bool-cases (elem d done)) [
  | inl e ↦ let (y, m, n) = left-positive ds done (ground arith) in (y, ground arith, n)
  | inr e ↦ (d, ground (arith, text_eq_refl d), e)
]

get_put_degree :
    (degrees : Dict ℤ) (r x : Text)
    → degree (count_down degrees r) x
      ≡ (if text_eq r x then pred (degree degrees x) else degree degrees x)
unfolding count_down
get_put_degree degrees r x =
    rw (get-put r x (pred (degree degrees r)) degrees) (elim (Bool-cases (text_eq r x)) [
      | inl e ↦ rw (e, eq_of_text_eq r x e) refl
      | inr e ↦ rw e refl
    ])

pub is_positive-pos : (n : ℕ) → is_positive (pos n) ≡ ltb 0 n
is_positive-pos zero = refl
is_positive-pos (suc n) = ground arith

pred-pos : (n m : ℕ) → n ≡ suc m → pred (pos n) ≡ pos m
pred-pos n m h = rw h refl

pub is_zero-pos : (n : ℕ) → is_zero (pos n) ≡ (n == 0)
is_zero-pos zero = refl
is_zero-pos (suc n) = ground arith

module _ (has : Text → Bool) (deps rdeps : Text → List Text) where
  -- The degrees count what is left; `rs` is what still has to be counted down for the last of `done`.
  abbrev pub Waiting : List Text → List Text → Dict ℤ → Type 0
  Waiting rs done degrees =
      (x : Text) → has x ≡ true → degree degrees x ≡ pos (left (deps x) done + count x rs)

  pub Waiting-down :
      (r : Text) (rs done : List Text) (degrees : Dict ℤ)
      → Waiting (r ∷ rs) done degrees
      → Waiting rs done (count_down degrees r)
  unfolding count
  Waiting-down r rs done degrees w x k =
      rw (get_put_degree degrees r x) (elim (Bool-cases (text_eq r x)) [
        | inl e ↦ rw (e, w x k) (pred-pos _ _ (ground (arith, e)))
        | inr e ↦ rw (e, w x k) (ap pos (ground (arith, e)))
      ])

  left-next :
      (x : Text) (done : List Text)
      → elem x done ≡ false
      → (y : Text) → count y (rdeps x) ≡ count x (deps y)
      → left (deps y) done ≡ left (deps y) (done ++ (x ∷ [])) + count y (rdeps x)
  left-next x done fresh y mirrored =
      left-snoc (deps y) done x fresh
      ∙ ap (λ n. left (deps y) (done ++ (x ∷ [])) + n) (sym mirrored)

  pub Waiting-next :
      (x : Text) (done : List Text) (degrees : Dict ℤ)
      → ((y : Text) → has y ≡ true → count y (rdeps x) ≡ count x (deps y))
      → elem x done ≡ false
      → Waiting [] done degrees
      → Waiting (rdeps x) (done ++ (x ∷ [])) degrees
  unfolding count
  Waiting-next x done degrees mirrored fresh w y k =
      w y k ∙ ap pos (omega (arith, left-next x done fresh y (mirrored y k)))

  -- `done` has left the pool.
  pub record Released (rs done pool : List Text) (degrees : Dict ℤ) : Type 0 where
    pub waiting : Waiting rs done degrees
    pub counted :
        (x : Text)
        → count x done + count x pool ≡ one_if (has x && (left (deps x) done + count x rs == 0))

  module _ (r : Text) (rs done pool : List Text) (degrees : Dict ℤ)
      (i : Released (r ∷ rs) done pool degrees) where
    pub Released-down :
        (more : List Text)
        → has r ≡ true
        → ((x : Text)
            → count x more
              ≡ count x pool + one_if (is_zero (degree (count_down degrees r) r) && text_eq r x))
        → Released rs done more (count_down degrees r)
    unfolding count
    Released-down more h m =
        let down = Waiting-down r rs done degrees i.waiting in
        record {
          waiting = down;
          counted = λ x. elim (Bool-cases (text_eq r x)) [
            | inl e ↦
                let n = left (deps r) done + count r rs in
                let zero_now : is_zero (degree (count_down degrees r) r) ≡ (n == 0) =
                  ap is_zero (down r h) ∙ is_zero-pos n in
                rw (← eq_of_text_eq r x e)
                  (ground (arith, i.counted r, m r, zero_now, text_eq_refl r))
            | inr e ↦ ground (arith, i.counted x, m x, e)
          ];
        }

  -- A name leaves the pool.
  pub Released-next :
      (x : Text) (done pool rest : List Text) (degrees : Dict ℤ)
      → ((y : Text) → count y (rdeps x) ≡ count x (deps y))
      → Released [] done pool degrees
      → ((y : Text) → count y pool ≡ one_if (text_eq x y) + count y rest)
      → Released (rdeps x) (done ++ (x ∷ [])) rest degrees
  unfolding count
  Released-next x done pool rest degrees mirrored i m =
      let fresh : elem x done ≡ false =
        ground (arith, i.counted x, m x, text_eq_refl x, elem-count x done) in
      record {
        waiting = Waiting-next x done degrees (λ y k. mirrored y) fresh i.waiting;
        counted = λ y.
            ground
              (arith, i.counted y, m y, left-next x done fresh y (mirrored y), count-snoc y x done);
      }
