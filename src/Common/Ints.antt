-- ===== src/Common/Ints.antt =====
-- Go's `int` where it may fall below zero.
use Prim.Native.Nat.{ℕ, zero, suc, ◌≤◌}
use mathlib.Core.Bool.{Bool, true, false}
use native.Mathlib.Omega.{arith}
use mathlib.Core.Path.{◌≡◌}
use yoe.Common.Tests.{ltb, ltb→lt, le_of_ltb}

pub data ℤ : Type 0 where
  pos negsuc : ℕ → ℤ

abbrev pub pred : ℤ → ℤ
pred (pos zero) = negsuc 0
pred (pos (suc n)) = pos n
pred (negsuc n) = negsuc (suc n)

abbrev pub is_zero : ℤ → Bool
is_zero (pos zero) = true
is_zero _ = false

abbrev pub is_positive : ℤ → Bool
is_positive (pos (suc _)) = true
is_positive _ = false

abbrev pub next_int : ℤ → ℤ
next_int (pos n) = pos (suc n)
next_int (negsuc zero) = pos 0
next_int (negsuc (suc n)) = negsuc n

-- Go's `<` on integers.
unfoldable pub ltb_int : ℤ → ℤ → Bool
ltb_int (pos m) (pos n) = ltb m n
ltb_int (pos m) (negsuc n) = false
ltb_int (negsuc m) (pos n) = true
ltb_int (negsuc m) (negsuc n) = ltb n m

-- The order of the integers.
abbrev pub IsAtMost : ℤ → ℤ → Type 0
IsAtMost (pos m) (pos n) = m ≤ n
IsAtMost (pos m) (negsuc n) = ⊥
IsAtMost (negsuc m) (pos n) = Unit
IsAtMost (negsuc m) (negsuc n) = n ≤ m

pub IsAtMost-refl : (m : ℤ) → IsAtMost m m
IsAtMost-refl (pos m) = omega arith
IsAtMost-refl (negsuc m) = omega arith

pub IsAtMost-trans : (k m n : ℤ) → IsAtMost k m → IsAtMost m n → IsAtMost k n
IsAtMost-trans (pos k) (pos m) (pos n) h g = omega arith
IsAtMost-trans (pos k) (pos m) (negsuc n) h g = absurd g
IsAtMost-trans (pos k) (negsuc m) n h g = absurd h
IsAtMost-trans (negsuc k) (pos m) (pos n) h g = tt
IsAtMost-trans (negsuc k) (pos m) (negsuc n) h g = absurd g
IsAtMost-trans (negsuc k) (negsuc m) (pos n) h g = tt
IsAtMost-trans (negsuc k) (negsuc m) (negsuc n) h g = omega arith

pub IsAtMost-of_less : (m n : ℤ) → ltb_int m n ≡ true → IsAtMost m n
unfolding ltb_int
IsAtMost-of_less (pos m) (pos n) h = omega (arith, ltb→lt m n h)
IsAtMost-of_less (pos m) (negsuc n) h = cc
IsAtMost-of_less (negsuc m) (pos n) h = tt
IsAtMost-of_less (negsuc m) (negsuc n) h = omega (arith, ltb→lt n m h)

pub IsAtMost-of_not_less : (m n : ℤ) → ltb_int m n ≡ false → IsAtMost n m
unfolding ltb_int
IsAtMost-of_not_less (pos m) (pos n) h = le_of_ltb m n h
IsAtMost-of_not_less (pos m) (negsuc n) h = tt
IsAtMost-of_not_less (negsuc m) (pos n) h = cc
IsAtMost-of_not_less (negsuc m) (negsuc n) h = le_of_ltb n m h
