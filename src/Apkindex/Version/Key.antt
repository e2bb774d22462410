-- ===== src/Apkindex/Version/Key.antt =====
-- `compareVersions` is the lexicographic comparison of one list of numbers for each version, so it
-- is a total preorder.
use yoe.Common.{
  if◌then◌else◌, Bool-cases, length, compare_text, ℕ, suc, ◌+◌, ◌%◌, ◌^◌, ◌≡◌, refl, sym, ap, ◌∙◌,
  ◌≢◌, inl, inr, true, false, ◌&&◌, List, [], ◌∷◌, ◌++◌, arith, eq_of_text_eq, Text, text_eq,
  has_prefix,
}
use Prim.Native.Nat.{compare, Ordering}
use yoe.Apkindex.Version.Segments.{well_segment, all_well, split_ver_segments-well}
use yoe.Apkindex.Version.{
  is_digit, digits_only, all_digits, split_release, compare_numeric_string, trim_zeros,
  compare_segment, is_prerelease_segment, compare_segments, compare_pkgver, split_ver_segments,
  compare_ints, compare_versions, int_mod,
}

-- The second answer decides where the first is a tie.
abbrev pub then_by : Ordering → Ordering → Ordering
then_by Ordering.eq o = o
then_by Ordering.lt o = Ordering.lt
then_by Ordering.gt o = Ordering.gt

-- The order seen from the other side.
abbrev pub opposite : Ordering → Ordering
opposite Ordering.lt = Ordering.gt
opposite Ordering.eq = Ordering.eq
opposite Ordering.gt = Ordering.lt

-- A key that no longer key continues: each number one up, and a zero at the end.
pub seal : List ℕ → List ℕ
seal [] = 0 ∷ []
seal (c ∷ k) = suc c ∷ seal k

compare_self : (a : ℕ) → compare a a ≡ Ordering.eq
compare_self a = ground arith

compare-suc : (a b : ℕ) → compare (suc a) (suc b) ≡ compare a b
compare-suc a b = ground arith

compare_text-seal :
    (k l x y : List ℕ)
    → compare_text (seal k ++ x) (seal l ++ y) ≡ then_by (compare_text k l) (compare_text x y)
unfolding seal compare_text
compare_text-seal [] [] x y = refl
compare_text-seal [] (d ∷ l) x y = ground arith
compare_text-seal (c ∷ k) [] x y = ground arith
compare_text-seal (c ∷ k) (d ∷ l) x y = ground (arith, compare-suc c d, compare_text-seal k l x y)

-- The key of a segment that is no prerelease: digits by their number.
pub plain_key : Text → List ℕ
plain_key s = if all_digits s then b'0' ∷ length (trim_zeros s) ∷ trim_zeros s else s

pub segment_key : Text → List ℕ
segment_key s = if is_prerelease_segment s then 0 ∷ s else 2 ∷ plain_key s

-- The end of a version stands behind a prerelease segment and before any other.
pub segments_key : List Text → List ℕ
segments_key [] = seal (1 ∷ [])
segments_key (s ∷ ss) = seal (segment_key s) ++ segments_key ss

prerelease-not_digits : (s : Text) → is_prerelease_segment s ≡ true → all_digits s ≡ false
unfolding is_prerelease_segment
prerelease-not_digits [] h = unfold all_digits in refl
prerelease-not_digits (c ∷ s) h =
    unfold all_digits digits_only is_digit has_prefix text_eq in ground arith

compare_digits :
    (s t : Text)
    → all_digits s ≡ true
    → all_digits t ≡ true
    → compare_numeric_string s t ≡ compare_text (plain_key s) (plain_key t)
unfolding plain_key compare_numeric_string compare_text
compare_digits s t hs ht = rw hs (rw ht refl)

compare_digit-other :
    (s t : Text)
    → all_digits s ≡ true
    → all_digits t ≡ false
    → well_segment t ≡ true
    → compare_text s t ≡ compare_text (plain_key s) (plain_key t)
unfolding plain_key compare_text
compare_digit-other s [] hs ht w = unfold well_segment in cc
compare_digit-other [] (d ∷ t) hs ht w = unfold all_digits in cc
compare_digit-other (c ∷ s) (d ∷ t) hs ht w =
    rw hs (rw ht (unfold all_digits well_segment digits_only is_digit in ground arith))

compare_other-digit :
    (s t : Text)
    → all_digits s ≡ false
    → all_digits t ≡ true
    → well_segment s ≡ true
    → compare_text s t ≡ compare_text (plain_key s) (plain_key t)
unfolding plain_key compare_text
compare_other-digit [] t hs ht w = unfold well_segment in cc
compare_other-digit (c ∷ s) [] hs ht w = unfold all_digits in cc
compare_other-digit (c ∷ s) (d ∷ t) hs ht w =
    rw hs (rw ht (unfold all_digits well_segment digits_only is_digit in ground arith))

compare_plain :
    (s t : Text)
    → well_segment s ≡ true
    → well_segment t ≡ true
    → (if all_digits s && all_digits t then compare_numeric_string s t else compare_text s t)
      ≡ compare_text (plain_key s) (plain_key t)
compare_plain s t ws wt = elim (Bool-cases (all_digits s)) [
  | inl hs ↦ elim (Bool-cases (all_digits t)) [
    | inl ht ↦ rw hs (rw ht (compare_digits s t hs ht))
    | inr ht ↦ rw hs (rw ht (compare_digit-other s t hs ht wt))
  ]
  | inr hs ↦ elim (Bool-cases (all_digits t)) [
    | inl ht ↦ rw hs (compare_other-digit s t hs ht ws)
    | inr ht ↦ rw hs (unfold plain_key in rw hs (rw ht))
  ]
]

compare_segment-key :
    (s t : Text)
    → well_segment s ≡ true
    → well_segment t ≡ true
    → compare_segment s t ≡ compare_text (segment_key s) (segment_key t)
unfolding compare_segment segment_key compare_text
compare_segment-key s t ws wt = elim (Bool-cases (is_prerelease_segment s)) [
  | inl ps ↦ elim (Bool-cases (is_prerelease_segment t)) [
    | inl pt ↦ rw ps (rw pt (rw (prerelease-not_digits s ps) refl))
    | inr pt ↦ rw ps (rw pt refl)
  ]
  | inr ps ↦ elim (Bool-cases (is_prerelease_segment t)) [
    | inl pt ↦ rw ps (rw pt refl)
    | inr pt ↦ rw ps (rw pt (compare_plain s t ws wt))
  ]
]

compare_segments-key :
    (ss ts : List Text)
    → all_well ss ≡ true
    → all_well ts ≡ true
    → compare_segments ss ts ≡ compare_text (segments_key ss) (segments_key ts)
unfolding compare_segments segments_key all_well
compare_segments-key [] [] h k = unfold seal compare_text in refl
compare_segments-key [] (t ∷ ts) h k = unfold seal compare_text segment_key in ground arith
compare_segments-key (s ∷ ss) [] h k = unfold seal compare_text segment_key in ground arith
compare_segments-key (s ∷ ss) (t ∷ ts) h k = ground (
  arith,
  compare_text-seal (segment_key s) (segment_key t) (segments_key ss) (segments_key ts),
  compare_segment-key s t,
  compare_segments-key ss ts,
)

pub pkgver_key : Text → List ℕ
pkgver_key v = segments_key (split_ver_segments v)

compare_pkgver-key : (a b : Text) → compare_pkgver a b ≡ compare_text (pkgver_key a) (pkgver_key b)
unfolding compare_pkgver pkgver_key
compare_pkgver-key a b =
    compare_segments-key _ _ (split_ver_segments-well a) (split_ver_segments-well b)

-- The key of a version: its segments, then its release number as a signed word.
pub version_key : Text → List ℕ
version_key v =
    seal (pkgver_key (split_release v).0) ++ ((((split_release v).1 + 2 ^ 63) % int_mod) ∷ [])

compare_text-one : (a b : ℕ) → compare_text (a ∷ []) (b ∷ []) ≡ compare a b
unfolding compare_text
compare_text-one a b = ground arith

pub compare_text_self : (s : List ℕ) → compare_text s s ≡ Ordering.eq
unfolding compare_text
compare_text_self [] = refl
compare_text_self (c ∷ s) = rw (compare_self c, compare_text) (compare_text_self s)

-- Comparing two versions is comparing their keys, as texts are compared: number by number, and a
-- key that ends first is the lower one.
pub compare_versions-key :
    (a b : Text) → compare_versions a b ≡ compare_text (version_key a) (version_key b)
unfolding compare_versions version_key
compare_versions-key a b = elim (Bool-cases (text_eq a b)) [
  | inl e ↦ rw (e, eq_of_text_eq a b e) (sym (compare_text_self _))
  | inr e ↦
      rw
        (e, compare_text-seal (pkgver_key (split_release a).0) (pkgver_key (split_release b).0) _ _)
        (rw (compare_pkgver-key (split_release a).0 (split_release b).0, compare_text-one)
          (unfold compare_ints in ground arith))
]

compare_text-swap : (s t : List ℕ) → compare_text t s ≡ opposite (compare_text s t)
unfolding compare_text
compare_text-swap [] [] = refl
compare_text-swap [] (d ∷ t) = refl
compare_text-swap (c ∷ s) [] = refl
compare_text-swap (c ∷ s) (d ∷ t) = ground (arith, compare_text-swap s t)

compare_text_trans :
    (s t u : List ℕ)
    → compare_text s t ≢ Ordering.gt
    → compare_text t u ≢ Ordering.gt
    → compare_text s u ≢ Ordering.gt
unfolding compare_text
compare_text_trans [] t [] h k = cc
compare_text_trans [] t (e ∷ u) h k = cc
compare_text_trans (c ∷ s) [] u h k = absurd (h refl)
compare_text_trans (c ∷ s) (d ∷ t) [] h k = absurd (k refl)
compare_text_trans (c ∷ s) (d ∷ t) (e ∷ u) h k = ground (arith, compare_text_trans s t u)

-- Comparing two versions the other way round gives the opposite answer, whatever the versions.
pub compare_versions-swap : (a b : Text) → compare_versions b a ≡ opposite (compare_versions a b)
compare_versions-swap a b =
    compare_versions-key b a
    ∙ compare_text-swap (version_key a) (version_key b)
    ∙ ap opposite (sym (compare_versions-key a b))

-- "Not newer than" is transitive: no chain of versions leads back to an older one.
pub compare_versions_trans :
    (a b c : Text)
    → compare_versions a b ≢ Ordering.gt
    → compare_versions b c ≢ Ordering.gt
    → compare_versions a c ≢ Ordering.gt
compare_versions_trans a b c h k e =
    compare_text_trans (version_key a) (version_key b) (version_key c)
      (λ p. h (compare_versions-key a b ∙ p)) (λ p. k (compare_versions-key b c ∙ p))
      (sym (compare_versions-key a c) ∙ e)
