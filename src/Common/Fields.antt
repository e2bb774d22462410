-- ===== src/Common/Fields.antt =====
-- `strings.Fields` and `strings.Join` with a blank between, on ASCII texts.
use Prim.Native.Nat.{ℕ}
use mathlib.Core.Path.{◌≡◌, refl, sym, ap, ◌∙◌}
use mathlib.Core.Logic.{inl, inr}
use mathlib.Core.Bool.{Bool, true, false, not, ◌&&◌, ◌||◌}
use mathlib.Core.List.{List, [], ◌∷◌, ◌++◌, append-nil, append_assoc}
use native.Mathlib.Omega.{arith}
use yoe.Common.Tests.{◌==◌, leb, if◌then◌else◌, Bool-cases}
use yoe.Common.Texts.{Text, text_eq, text_eq_refl, eq_of_text_eq}
use yoe.Common.Dicts.{elem}

abbrev pub is_blank : ℕ → Bool
is_blank c = c == 32 || (leb 9 c && leb c 13)

abbrev pub add_token : Text → List Text → List Text
add_token [] out = out
add_token (c ∷ s) out = (c ∷ s) ∷ out

unfoldable pub tokens_from : Text → Text → List Text
tokens_from token [] = add_token token []
tokens_from token (c ∷ s) =
    let at_blank = tokens_from [] s in
    let inside = tokens_from (token ++ (c ∷ [])) s in
    if is_blank c then add_token token at_blank else inside

-- `strings.Fields`: what stands between blanks, without empty tokens.
unfoldable pub split_fields : Text → List Text
unfolding tokens_from
split_fields s = tokens_from [] s

unfoldable pub join_fields : List Text → Text
join_fields [] = []
join_fields (x ∷ []) = x
join_fields (x ∷ y ∷ xs) = x ++ (32 ∷ join_fields (y ∷ xs))

unfoldable pub has_blank : Text → Bool
has_blank [] = false
has_blank (c ∷ s) = is_blank c || has_blank s

-- A token: not empty, and without a blank.
abbrev pub is_token : Text → Bool
is_token [] = false
is_token (c ∷ s) = not (has_blank (c ∷ s))

pub has_blank-append : (s t : Text) → has_blank (s ++ t) ≡ (has_blank s || has_blank t)
unfolding has_blank
has_blank-append [] t = refl
has_blank-append (c ∷ s) t = ground (arith, has_blank-append s t)

is_token-add_token :
    (token : Text) (out : List Text)
    → has_blank token ≡ false
    → ((x : Text) → elem x out ≡ true → is_token x ≡ true)
    → (x : Text) → elem x (add_token token out) ≡ true
    → is_token x ≡ true
unfolding elem
is_token-add_token [] out h k x m = k x m
is_token-add_token (c ∷ s) out h k x m = elim (Bool-cases (text_eq (c ∷ s) x)) [
  | inl e ↦ rw (← eq_of_text_eq (c ∷ s) x e) (rw h refl)
  | inr e ↦ k x (rw e at m)
]

is_token-tokens_from :
    (token s : Text)
    → has_blank token ≡ false
    → (x : Text) → elem x (tokens_from token s) ≡ true
    → is_token x ≡ true
unfolding tokens_from has_blank elem
is_token-tokens_from token [] h x m = is_token-add_token token [] h (λ y n. cc) x m
is_token-tokens_from token (c ∷ s) h x m = elim (Bool-cases (is_blank c)) [
  | inl e ↦
      is_token-add_token token (tokens_from [] s) h (is_token-tokens_from [] s refl) x (rw e at m)
  | inr e ↦
      is_token-tokens_from (token ++ (c ∷ [])) s (has_blank-append token (c ∷ []) ∙ rw (h, e) refl)
        x (rw e at m)
]

pub is_token-split_fields : (s x : Text) → elem x (split_fields s) ≡ true → is_token x ≡ true
unfolding split_fields has_blank
is_token-split_fields s = is_token-tokens_from [] s refl

-- A token, and then a blank or the end.
tokens_from-token :
    (token s rest : Text)
    → has_blank s ≡ false
    → tokens_from token (s ++ rest) ≡ tokens_from (token ++ s) rest
unfolding tokens_from has_blank
tokens_from-token token [] rest h = rw (append-nil token) refl
tokens_from-token token (c ∷ s) rest h = elim (Bool-cases (is_blank c)) [
  | inl e ↦ cc (rw e at h)
  | inr e ↦ rw e (
      tokens_from-token (token ++ (c ∷ [])) s rest (rw e at h)
      ∙ ap (λ t. tokens_from t rest) (append_assoc token (c ∷ []) s))
]

-- Tokens that are joined by blanks are read back.
pub split_fields-join_fields :
    (xs : List Text)
    → ((x : Text) → elem x xs ≡ true → is_token x ≡ true)
    → split_fields (join_fields xs) ≡ xs
unfolding split_fields join_fields tokens_from elem text_eq
split_fields-join_fields [] k = refl
split_fields-join_fields ([] ∷ xs) k = absurd (cc (k [] refl))
split_fields-join_fields ((c ∷ s) ∷ []) k =
    ap (tokens_from []) (sym (append-nil (c ∷ s)))
    ∙ tokens_from-token [] (c ∷ s) [] (no_blank (k (c ∷ s) (rw (text_eq_refl (c ∷ s)) refl)))
  where
    no_blank : not (has_blank (c ∷ s)) ≡ true → has_blank (c ∷ s) ≡ false
    no_blank h = ground (arith, h)
split_fields-join_fields ((c ∷ s) ∷ y ∷ xs) k =
    tokens_from-token [] (c ∷ s) (32 ∷ join_fields (y ∷ xs))
      (no_blank (k (c ∷ s) (rw (text_eq_refl (c ∷ s)) refl)))
    ∙ ap (λ l. (c ∷ s) ∷ l) (split_fields-join_fields (y ∷ xs) (λ x m. k x (ground (arith, m))))
  where
    no_blank : not (has_blank (c ∷ s)) ≡ true → has_blank (c ∷ s) ≡ false
    no_blank h = ground (arith, h)
