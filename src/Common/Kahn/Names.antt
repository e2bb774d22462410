-- ===== src/Common/Kahn/Names.antt =====
-- The names that pass a test of their degree.
use yoe.Common.{
  Bool-cases, Distinct, ℤ, pred, one_if, count, ◌≡◌, refl, inl, inr, Bool, true, false, ◌&&◌, [],
  ◌∷◌, arith, eq_of_text_eq, Text, text_eq, keys-put, Dict, get, elem, keys_of_dict,
}
use yoe.Common.Kahn.{degree, count_down, names_with}

pub count-names_with :
    (test : ℤ → Bool) (degrees : Dict ℤ) (x : Text)
    → Distinct (keys_of_dict degrees)
    → count x (names_with test degrees)
      ≡ one_if (elem x (keys_of_dict degrees) && test (degree degrees x))
unfolding names_with count keys_of_dict get elem
count-names_with test [] x d = refl
count-names_with test ((j, v) ∷ degrees) x d =
    let ih = count-names_with test degrees x d.1 in
    elim (Bool-cases (text_eq j x)) [
      | inl e ↦
          let absent : elem x (keys_of_dict degrees) ≡ false = rw (← eq_of_text_eq j x e) (d.0) in
          elim (Bool-cases (test v)) [
            | inl t ↦ rw (t, e) (ground (arith, ih, absent))
            | inr t ↦ rw (t, e) (ground (arith, ih, absent))
          ]
      | inr e ↦ elim (Bool-cases (test v)) [
        | inl t ↦ rw (t, e) (omega (arith, ih))
        | inr t ↦ rw (t, e) (omega (arith, ih))
      ]
    ]

pub keys-count_down :
    (degrees : Dict ℤ) (x : Text)
    → elem x (keys_of_dict degrees) ≡ true
    → keys_of_dict (count_down degrees x) ≡ keys_of_dict degrees
unfolding count_down
keys-count_down degrees x h = keys-put x (pred (degree degrees x)) degrees h
