-- ===== src/Common/Sorting.antt =====
-- The order of Go's strings, and `sort.Strings`.
use Prim.Native.Nat.{◌+◌, compare, Ordering}
use mathlib.Core.Path.{◌≡◌, refl}
use mathlib.Core.List.{List, [], ◌∷◌}
use native.Mathlib.Omega.{arith}
use yoe.Common.Texts.{Text, text_eq}
use yoe.Common.Dicts.{elem}
use yoe.Common.Counts.{one_if, count, elem-count}

unfoldable pub compare_text : Text → Text → Ordering
compare_text [] [] = Ordering.eq
compare_text [] (_ ∷ _) = Ordering.lt
compare_text (_ ∷ _) [] = Ordering.gt
compare_text (c ∷ s) (d ∷ t) = elim (compare c d) [
  | Ordering.eq ↦ compare_text s t
  | Ordering.lt ↦ Ordering.lt
  | Ordering.gt ↦ Ordering.gt
]

unfoldable pub insert_sorted : Text → List Text → List Text
insert_sorted x [] = x ∷ []
insert_sorted x (y ∷ ys) = elim (compare_text x y) [
  | Ordering.gt ↦ y ∷ insert_sorted x ys
  | _ ↦ x ∷ y ∷ ys
]

unfoldable pub sort_strings : List Text → List Text
sort_strings [] = []
sort_strings (x ∷ xs) = insert_sorted x (sort_strings xs)

count-insert_sorted :
    (k x : Text) (xs : List Text) → count k (insert_sorted x xs) ≡ one_if (text_eq x k) + count k xs
unfolding insert_sorted count
count-insert_sorted k x [] = refl
count-insert_sorted k x (y ∷ ys) = go (compare_text x y) (count-insert_sorted k x ys)
  where
    go :
        (o : Ordering)
        → count k (insert_sorted x ys) ≡ one_if (text_eq x k) + count k ys
        → count k
            (elim o as (λ _. List Text) [ Ordering.gt ↦ y ∷ insert_sorted x ys | _ ↦ x ∷ y ∷ ys ])
          ≡ one_if (text_eq x k) + count k (y ∷ ys)
    go Ordering.gt h = omega (arith, h)
    go Ordering.lt h = refl
    go Ordering.eq h = refl

pub count-sort_strings : (k : Text) (xs : List Text) → count k (sort_strings xs) ≡ count k xs
unfolding sort_strings count
count-sort_strings k [] = refl
count-sort_strings k (x ∷ xs) =
    omega (arith, count-insert_sorted k x (sort_strings xs), count-sort_strings k xs)

pub elem-sort_strings : (k : Text) (xs : List Text) → elem k (sort_strings xs) ≡ elem k xs
elem-sort_strings k xs =
    ground (arith, elem-count k xs, elem-count k (sort_strings xs), count-sort_strings k xs)
