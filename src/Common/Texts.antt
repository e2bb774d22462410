-- ===== src/Common/Texts.antt =====
-- Texts as the program sees them: sequences of bytes, with the operations of package `strings`
-- that the program calls.
use Prim.Native.Char.{code}
use Prim.Native.Nat.{ℕ}
use Prim.Native.String.{String}
use mathlib.Core.Path.{◌≡◌, refl}
use mathlib.Core.Logic.{◌↔◌, ◌⊎◌, inl, inr}
use mathlib.Core.Bool.{Bool, true, false, ◌&&◌}
use mathlib.Core.Option.{Option, none, some}
use mathlib.Core.List.{List, [], ◌∷◌, ◌++◌}
use native.Mathlib.Omega.{arith}
use yoe.Common.Tests.{◌==◌, if◌then◌else◌}

abbrev pub Text : Type 0
Text = List ℕ

-- A literal: its code points, which are its bytes where it is ASCII.
abbrev pub codes : String → Text
codes String.[] = []
codes (String.◌∷◌ c s) = code c ∷ codes s

unfoldable pub text_eq : Text → Text → Bool
text_eq [] [] = true
text_eq [] (_ ∷ _) = false
text_eq (_ ∷ _) [] = false
text_eq (c ∷ s) (d ∷ t) = c == d && text_eq s t

pub text_eq_refl : (s : Text) → text_eq s s ≡ true
unfolding text_eq
text_eq_refl [] = refl
text_eq_refl (c ∷ s) = ground (arith, text_eq_refl s)

pub eq_of_text_eq : (s t : Text) → text_eq s t ≡ true → s ≡ t
unfolding text_eq
eq_of_text_eq [] [] h = refl
eq_of_text_eq [] (d ∷ t) h = ground arith
eq_of_text_eq (c ∷ s) [] h = ground arith
eq_of_text_eq (c ∷ s) (d ∷ t) h = ground (arith, eq_of_text_eq s t)

pub text_eq_iff : (s t : Text) → (text_eq s t ≡ true) ↔ (s ≡ t)
text_eq_iff s t = (eq_of_text_eq s t, λ e. ground (arith, text_eq_refl s))

-- `strings.HasPrefix`
unfoldable pub has_prefix : Text → Text → Bool
has_prefix s [] = true
has_prefix [] (_ ∷ _) = false
has_prefix (c ∷ s) (p ∷ ps) = c == p && has_prefix s ps

pub has_prefix_append : (p s : Text) → has_prefix (p ++ s) p ≡ true
unfolding has_prefix
has_prefix_append [] s = refl
has_prefix_append (c ∷ p) s = ground (arith, has_prefix_append p s)

-- `strings.IndexByte`, with the two slices around the byte that its callers take.
unfoldable pub cut_byte : ℕ → Text → Option (Text × Text)
cut_byte b [] = none
cut_byte b (c ∷ s) =
    if c == b
    then some ([], s)
    else elim (cut_byte b s) [ none ↦ none | some (l, r) ↦ some (c ∷ l, r) ]

-- Whether a byte occurs in a text.
unfoldable pub has_byte : ℕ → Text → Bool
has_byte b [] = false
has_byte b (c ∷ s) = if c == b then true else has_byte b s

-- A cut at the first occurrence loses nothing, and its left part is free of the byte.
pub cut_byte-some :
    (b : ℕ) (s l r : Text) → cut_byte b s ≡ some (l, r) → (s ≡ l ++ b ∷ r) × (has_byte b l ≡ false)
unfolding cut_byte has_byte
cut_byte-some b [] l r h = ground arith
cut_byte-some b (c ∷ s) l r h = elim (cases (cut_byte b s) refl) [
  | inl e ↦ ground arith
  | inr (l', r', e) ↦ ground (arith, cut_byte-some b s l' r' e)
]
  where
    cases :
        (o : Option (Text × Text))
        → o ≡ cut_byte b s
        → (cut_byte b s ≡ none) ⊎ ((l : Text) × (r : Text) × (cut_byte b s ≡ some (l, r)))
    cases none e = inl (ground arith)
    cases (some (l, r)) e = inr (l, r, ground arith)

pub cut_byte-none : (b : ℕ) (s : Text) → has_byte b s ≡ false → cut_byte b s ≡ none
unfolding cut_byte has_byte
cut_byte-none b [] h = refl
cut_byte-none b (c ∷ s) h = ground (arith, cut_byte-none b s)

pub cut_byte-append :
    (b : ℕ) (l r : Text) → has_byte b l ≡ false → cut_byte b (l ++ b ∷ r) ≡ some (l, r)
unfolding cut_byte has_byte
cut_byte-append b [] r h = ground arith
cut_byte-append b (c ∷ l) r h = ground (arith, cut_byte-append b l r)
