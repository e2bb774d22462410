-- ===== src/Common/Dicts.antt =====
-- Go's maps with text keys, as association lists.
use mathlib.Core.Path.{◌≡◌, refl, ap}
use mathlib.Core.Bool.{Bool, true, false}
use mathlib.Core.Option.{Option, none, some}
use mathlib.Core.List.{List, [], ◌∷◌}
use native.Mathlib.Omega.{arith}
use mathlib.Core.Logic.{inl, inr}
use Prim.Native.Nat.{suc}
use yoe.Common.Lists.{length}
use yoe.Common.Tests.{if◌then◌else◌, Bool-cases}
use yoe.Common.Texts.{Text, text_eq, text_eq_iff, eq_of_text_eq}

abbrev pub Dict {ℓ} : Type ℓ → Type ℓ
Dict V = List (Text × V)

module _ {ℓ} {V : Type ℓ} where
  unfoldable pub get : Text → Dict V → Option V
  get k [] = none
  get k ((j, v) ∷ m) = if text_eq j k then some v else get k m

  unfoldable pub put : Text → V → Dict V → Dict V
  put k v [] = (k, v) ∷ []
  put k v ((j, w) ∷ m) = if text_eq j k then (k, v) ∷ m else (j, w) ∷ put k v m

  pub get-put :
      (k j : Text) (v : V) (m : Dict V)
      → get j (put k v m) ≡ (if text_eq k j then some v else get j m)
  unfolding get put
  get-put k j v [] = refl
  get-put k j v ((i, w) ∷ m) =
      ground (arith, text_eq_iff k j, text_eq_iff i k, text_eq_iff i j, get-put k j v m)

-- `m[k]` of a map of booleans, which reads a missing key as false.
unfoldable pub flag : Text → Dict Bool → Bool
flag k m = elim (get k m) [ none ↦ false | some b ↦ b ]

-- A list of texts contains a text.
unfoldable pub elem : Text → List Text → Bool
elem k [] = false
elem k (j ∷ js) = if text_eq j k then true else elem k js

unfoldable pub keys_of_dict {ℓ} : {V : Type ℓ} → Dict V → List Text
keys_of_dict [] = []
keys_of_dict ((k, _) ∷ m) = k ∷ keys_of_dict m

module _ {ℓ} {V : Type ℓ} where
  pub length-keys : (m : Dict V) → length (keys_of_dict m) ≡ length m
  unfolding keys_of_dict
  length-keys [] = refl
  length-keys (p ∷ m) = ap suc (length-keys m)

  pub keys-put :
      (k : Text) (v : V) (m : Dict V)
      → elem k (keys_of_dict m) ≡ true
      → keys_of_dict (put k v m) ≡ keys_of_dict m
  unfolding keys_of_dict put elem
  keys-put k v [] h = cc
  keys-put k v ((j, w) ∷ m) h = elim (Bool-cases (text_eq j k)) [
    | inl e ↦ rw e (rw (eq_of_text_eq j k e) refl)
    | inr e ↦ rw e (ap (λ l. j ∷ l) (keys-put k v m (rw e at h)))
  ]
