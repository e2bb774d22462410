-- ===== src/Common/Counts.antt =====
-- How often a text stands in a list.
use Prim.Native.Nat.{ℕ, zero, suc, ◌+◌, ◌-◌, ◌≤◌, ◌<◌}
use mathlib.Core.Path.{◌≡◌, refl, ap}
use mathlib.Core.Logic.{inl, inr}
use mathlib.Core.Bool.{Bool, true, false, ◌&&◌}
use mathlib.Core.List.{List, [], ◌∷◌, ◌++◌}
use native.Mathlib.Omega.{arith}
use yoe.Common.Tests.{ltb, Bool-cases}
use yoe.Common.Lists.{length}
use yoe.Common.Texts.{Text, text_eq, text_eq_iff, text_eq_refl}
use yoe.Common.Dicts.{elem}
use yoe.Common.Sets.{Distinct}

abbrev pub one_if : Bool → ℕ
one_if true = 1
one_if false = 0

unfoldable pub count : Text → List Text → ℕ
count k [] = 0
count k (x ∷ xs) = one_if (text_eq x k) + count k xs

pub count-append : (k : Text) (xs ys : List Text) → count k (xs ++ ys) ≡ count k xs + count k ys
unfolding count
count-append k [] ys = omega arith
count-append k (x ∷ xs) ys = omega (arith, count-append k xs ys)

pub count-snoc :
    (k x : Text) (xs : List Text) → count k (xs ++ x ∷ []) ≡ count k xs + one_if (text_eq x k)
unfolding count
count-snoc k x [] = omega arith
count-snoc k x (y ∷ xs) = omega (arith, count-snoc k x xs)

pub elem-count : (k : Text) (xs : List Text) → elem k xs ≡ ltb 0 (count k xs)
unfolding count elem
elem-count k [] = refl
elem-count k (x ∷ xs) = ground (arith, elem-count k xs)

pub count-of_Distinct : (k : Text) (xs : List Text) → Distinct xs → count k xs ≡ one_if (elem k xs)
unfolding count elem
count-of_Distinct k [] d = refl
count-of_Distinct k (x ∷ xs) d =
    ground (arith, count-of_Distinct k xs, text_eq_iff x k, elem-count k xs)

pub Distinct-of_count : (xs : List Text) → ((k : Text) → count k xs ≤ 1) → Distinct xs
unfolding count
Distinct-of_count [] h = tt
Distinct-of_count (x ∷ xs) h = (
  ground (arith, elem-count x xs, h x, text_eq_refl x),
  Distinct-of_count xs (λ k. omega (arith, h k)),
)

-- One occurrence taken out.
remove : Text → List Text → List Text
remove k [] = []
remove k (x ∷ xs) = elim (text_eq x k) [ true ↦ xs | false ↦ x ∷ remove k xs ]

count-remove :
    (k j : Text) (xs : List Text) → count j (remove k xs) ≡ count j xs - one_if (text_eq k j)
unfolding count remove
count-remove k j [] = ground arith
count-remove k j (x ∷ xs) = elim (Bool-cases (text_eq x k)) [
  | inl e ↦ rw (e, remove) (ground (arith, text_eq_iff x k, e))
  | inr e ↦
      rw (e, remove)
        (ground (arith, count-remove k j xs, text_eq_iff x k, text_eq_iff x j, text_eq_iff k j))
]

length-remove :
    (k : Text) (xs : List Text) → 0 < count k xs → length xs ≡ suc (length (remove k xs))
unfolding count remove
length-remove k [] h = omega arith
length-remove k (x ∷ xs) h = elim (Bool-cases (text_eq x k)) [
  | inl e ↦ rw (e, remove) refl
  | inr e ↦ rw (e, remove) (ground (arith, length-remove k xs))
]

-- A list in which nothing stands more often than in another is no longer.
pub length-le_of_count :
    (xs ys : List Text) → ((k : Text) → count k xs ≤ count k ys) → length xs ≤ length ys
unfolding count
length-le_of_count [] ys h = omega arith
length-le_of_count (x ∷ xs) ys h =
    let rest : length xs ≤ length (remove x ys) =
      length-le_of_count xs (remove x ys) (λ k. ground (arith, count-remove x k ys, h k)) in
    ground (arith, length-remove x ys, h x, text_eq_refl x)

-- `n * d`, one summand at a time.
abbrev pub times : ℕ → ℕ → ℕ
times zero d = 0
times (suc n) d = d + times n d

times_of_suc : (m n d : ℕ) → m ≡ suc n → times m d ≡ d + times n d
times_of_suc m n d h = rw h refl

pub times-suc : (n d : ℕ) → times (1 + n) d ≡ d + times n d
times-suc n d = times_of_suc (1 + n) n d (omega arith)

pub times-zero_plus : (n d : ℕ) → times (0 + n) d ≡ times n d
times-zero_plus n d = let same : 0 + n ≡ n = omega arith in ap (λ m. times m d) same

pub count-nil_plus : (k : Text) (n : ℕ) → count k [] + n ≡ n
unfolding count
count-nil_plus k n = omega arith

pub times_positive : (n d : ℕ) → ltb 0 (times n d) ≡ (ltb 0 n && ltb 0 d)
times_positive zero d = refl
times_positive (suc n) d = ground (arith, times_positive n d)
