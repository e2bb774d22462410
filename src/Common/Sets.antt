-- ===== src/Common/Sets.antt =====
-- Lists of texts without repetition, which stand for Go's `map[string]bool` sets.
use mathlib.Core.Path.{◌≡◌, refl}
use mathlib.Core.Logic.{inl, inr}
use mathlib.Core.Bool.{true, false, ◌||◌}
use mathlib.Core.List.{List, [], ◌∷◌, ◌++◌, Memᴰ}
use native.Mathlib.Omega.{arith}
use yoe.Common.Tests.{Bool-cases}
use yoe.Common.Texts.{Text, text_eq, text_eq_iff, eq_of_text_eq}
use yoe.Common.Dicts.{Dict, put, elem, keys_of_dict}

-- No text stands twice in the list.
abbrev pub Distinct : List Text → Type 0
Distinct [] = Unit
Distinct (x ∷ xs) = (elem x xs ≡ false) × Distinct xs

pub elem-append : (k : Text) (xs ys : List Text) → elem k (xs ++ ys) ≡ (elem k xs || elem k ys)
unfolding elem
elem-append k [] ys = refl
elem-append k (x ∷ xs) ys = ground (arith, elem-append k xs ys)

pub elem-snoc_self : (k : Text) (xs : List Text) → elem k (xs ++ k ∷ []) ≡ true
unfolding elem
elem-snoc_self k [] = ground (arith, text_eq_iff k k)
elem-snoc_self k (x ∷ xs) = ground (arith, elem-snoc_self k xs)

pub elem-snoc : (k x : Text) (xs : List Text) → elem k (xs ++ x ∷ []) ≡ (elem k xs || text_eq x k)
unfolding elem
elem-snoc k x [] = ground arith
elem-snoc k x (y ∷ xs) = ground (arith, elem-snoc k x xs)

pub Distinct-snoc :
    (x : Text) (xs : List Text) → Distinct xs → elem x xs ≡ false → Distinct (xs ++ x ∷ [])
unfolding elem
Distinct-snoc x [] d h = (refl, tt)
Distinct-snoc x (y ∷ xs) d h =
    ground (arith, elem-snoc y x xs, text_eq_iff x y, text_eq_iff y x, Distinct-snoc x xs)

pub mem_of_elem : (k : Text) (xs : List Text) → elem k xs ≡ true → Memᴰ k xs
unfolding elem
mem_of_elem k [] h = cc
mem_of_elem k (x ∷ xs) h = elim (Bool-cases (text_eq x k)) [
  | inl e ↦ Memᴰ.head (ground (arith, text_eq_iff x k))
  | inr n ↦ Memᴰ.tail (mem_of_elem k xs (ground arith))
]

pub elem_of_mem : (k : Text) (xs : List Text) → Memᴰ k xs → elem k xs ≡ true
unfolding elem
elem_of_mem k [] m = elim m [ ]
elem_of_mem k (x ∷ xs) (Memᴰ.head e) = ground (arith, text_eq_iff x k)
elem_of_mem k (x ∷ xs) (Memᴰ.tail m) = ground (arith, elem_of_mem k xs m)

pub Distinct-put :
    {A : Type 0} (k : Text) (v : A) (m : Dict A)
    → Distinct (keys_of_dict m)
    → Distinct (keys_of_dict (put k v m))
unfolding keys_of_dict put elem
Distinct-put {A} k v [] d = (refl, tt)
Distinct-put {A} k v ((j, w) ∷ m) d = elim (Bool-cases (text_eq j k)) [
  | inl e ↦ rw e (rw (← eq_of_text_eq j k e) d)
  | inr e ↦ rw e (still_new m e (d.0), Distinct-put k v m d.1)
]
  where
    still_new :
        (n : Dict A)
        → text_eq j k ≡ false
        → elem j (keys_of_dict n) ≡ false
        → elem j (keys_of_dict (put k v n)) ≡ false
    still_new [] e a = ground (arith, text_eq_iff j k, text_eq_iff k j)
    still_new ((i, w) ∷ n) e a = elim (Bool-cases (text_eq i k)) [
      | inl f ↦
          rw f (
            ground
              (arith, a, text_eq_iff i k, text_eq_iff k j, text_eq_iff j k, text_eq_iff i j, e))
      | inr f ↦ rw f (ground (arith, a, still_new n e))
    ]

pub elem-keys_put :
    {A : Type 0} (x k : Text) (v : A) (m : Dict A)
    → elem x (keys_of_dict (put k v m)) ≡ (elem x (keys_of_dict m) || text_eq k x)
unfolding keys_of_dict put elem
elem-keys_put x k v [] = ground arith
elem-keys_put x k v ((j, w) ∷ m) = elim (Bool-cases (text_eq j k)) [
  | inl e ↦ rw e (rw (eq_of_text_eq j k e) (ground arith))
  | inr e ↦ rw e (ground (arith, elem-keys_put x k v m))
]
