-- ===== src/Apkindex/Version.antt =====
-- internal/apkindex/provides.go, from `compareVersions` on: the comparison of package versions,
-- and `splitPkgver` of internal/apkindex/materialize.go. Versions are ASCII: `unicode.IsDigit` is
-- read as the test for `0` to `9`. Release numbers are Go's `int`, the 64-bit words below `2 ^ 64`.
pub mod Segments
pub mod Key
pub mod Release
use yoe.Common.{
  ltb, leb, ◌==◌, if◌then◌else◌, length, compare_text, ℕ, ◌+◌, ◌-◌, ◌*◌, ◌%◌, ◌^◌, Bool, true,
  false, not, ◌&&◌, ◌||◌, Option, none, some, List, [], ◌∷◌, ◌++◌, Text, codes, text_eq, has_prefix,
}
use Prim.Native.Nat.{compare, Ordering}

unfoldable pub is_digit : ℕ → Bool
is_digit c = leb b'0' c && leb c b'9'

unfoldable pub digits_only : Text → Bool
unfolding is_digit
digits_only [] = true
digits_only (c ∷ s) = is_digit c && digits_only s

-- `allDigits` of an ASCII text, where `unicode.IsDigit` holds of `0` to `9` alone.
unfoldable pub all_digits : Text → Bool
unfolding digits_only
all_digits [] = false
all_digits (c ∷ s) = digits_only (c ∷ s)

abbrev pub int_mod : ℕ
int_mod = 2 ^ 64

-- `n = n*10 + int(c-'0')` for each byte.
unfoldable pub parse_digits : ℕ → Text → ℕ
parse_digits n [] = n
parse_digits n (c ∷ s) = parse_digits ((n * 10 + (c - b'0')) % int_mod) s

-- `strings.LastIndex(v, "-r")`, as the slices before and behind the occurrence.
unfoldable pub cut_here : ℕ → Text → Option (Text × Text)
cut_here c [] = none
cut_here c (d ∷ s) = if c == b'-' && d == b'r' then some ([], s) else none

unfoldable pub cut_last : Text → Option (Text × Text)
unfolding cut_here
cut_last [] = none
cut_last (c ∷ s) = elim (cut_last s) [ some (l, r) ↦ some (c ∷ l, r) | none ↦ cut_here c s ]

-- What `splitRelease` returns for a version `v` that was cut into `l` and `tail`.
unfoldable pub release_of : Text → Text → Text → Text × ℕ
release_of v l tail = if all_digits tail then (l, parse_digits 0 tail) else (v, 0)

unfoldable pub split_release : Text → Text × ℕ
split_release v = elim (cut_last v) [ none ↦ (v, 0) | some (l, tail) ↦ release_of v l tail ]

-- The loop of `splitPkgver`, which leaves at the first byte that is no digit.
unfoldable pub pkgver_digits : ℕ → Text → Option ℕ
pkgver_digits n [] = some n
pkgver_digits n (c ∷ s) =
    let rest = pkgver_digits ((n * 10 + (c - b'0')) % int_mod) s in
    if ltb c b'0' || ltb b'9' c then none else rest

-- What `splitPkgver` returns for a version `v` that was cut into `l` and `tail`.
unfoldable pub pkgver_of : Text → Text → Text → Text × ℕ
pkgver_of v l [] = (v, 0)
pkgver_of v l (c ∷ tail) = elim (pkgver_digits 0 (c ∷ tail)) [ none ↦ (v, 0) | some n ↦ (l, n) ]

unfoldable pub split_pkgver : Text → Text × ℕ
split_pkgver v = elim (cut_last v) [ none ↦ (v, 0) | some (l, tail) ↦ pkgver_of v l tail ]

-- `prevKind`
pub data PrevKind : Type 0 where
  nothing digit alpha : PrevKind

unfoldable pub flush : List Text → Text → List Text
flush out [] = out
flush out (c ∷ cur) = out ++ ((c ∷ cur) ∷ [])

unfoldable pub is_separator : ℕ → Bool
is_separator r = r == b'.' || (r == b'_' || (r == b'+' || r == b'-'))

abbrev pub is_alpha_kind : PrevKind → Bool
is_alpha_kind alpha = true
is_alpha_kind _ = false

abbrev pub is_digit_kind : PrevKind → Bool
is_digit_kind digit = true
is_digit_kind _ = false

-- The loop of `splitVerSegments` over the bytes that are left.
unfoldable pub segments_from : List Text → Text → PrevKind → Text → List Text
unfolding flush is_separator is_digit
segments_from out cur kind [] = flush out cur
segments_from out cur kind (r ∷ v) =
    let at_separator =
      segments_from (if r == b'_' then flush out cur ++ (codes "_" ∷ []) else flush out cur) []
        nothing v in
    let at_digit =
      segments_from (if is_alpha_kind kind then flush out cur else out)
        (if is_alpha_kind kind then r ∷ [] else cur ++ (r ∷ [])) digit v in
    let at_alpha =
      segments_from (if is_digit_kind kind then flush out cur else out)
        (if is_digit_kind kind then r ∷ [] else cur ++ (r ∷ [])) alpha v in
    if is_separator r then at_separator else if is_digit r then at_digit else at_alpha

unfoldable pub split_ver_segments : Text → List Text
unfolding segments_from
split_ver_segments v = segments_from [] [] nothing v

-- `strings.Compare`
unfoldable pub is_prerelease_segment : Text → Bool
is_prerelease_segment s =
    text_eq s (codes "_")
    || (has_prefix s (codes "alpha")
        || (has_prefix s (codes "beta")
            || (has_prefix s (codes "pre") || has_prefix s (codes "rc"))))

-- `strings.TrimLeft(s, "0")`
unfoldable pub trim_zeros : Text → Text
trim_zeros [] = []
trim_zeros (c ∷ s) = if c == b'0' then trim_zeros s else c ∷ s

unfoldable pub compare_numeric_string : Text → Text → Ordering
unfolding trim_zeros
compare_numeric_string a b = elim (compare (length (trim_zeros a)) (length (trim_zeros b))) [
  | Ordering.lt ↦ Ordering.lt
  | Ordering.gt ↦ Ordering.gt
  | Ordering.eq ↦ compare_text (trim_zeros a) (trim_zeros b)
]

unfoldable pub compare_segment : Text → Text → Ordering
compare_segment a b =
    if is_prerelease_segment a && not (is_prerelease_segment b)
    then Ordering.lt
    else if is_prerelease_segment b && not (is_prerelease_segment a)
    then Ordering.gt
    else if all_digits a && all_digits b
    then compare_numeric_string a b
    else compare_text a b

-- The loop of `comparePkgver` and its `switch` on the lengths.
unfoldable pub compare_segments : List Text → List Text → Ordering
compare_segments [] [] = Ordering.eq
compare_segments [] (b ∷ bs) = if is_prerelease_segment b then Ordering.gt else Ordering.lt
compare_segments (a ∷ as') [] = if is_prerelease_segment a then Ordering.lt else Ordering.gt
compare_segments (a ∷ as') (b ∷ bs) = elim (compare_segment a b) [
  | Ordering.eq ↦ compare_segments as' bs
  | Ordering.lt ↦ Ordering.lt
  | Ordering.gt ↦ Ordering.gt
]

unfoldable pub compare_pkgver : Text → Text → Ordering
compare_pkgver a b = compare_segments (split_ver_segments a) (split_ver_segments b)

-- Two's complement words are compared by their place above the least of them.
unfoldable pub compare_ints : ℕ → ℕ → Ordering
compare_ints a b = compare ((a + 2 ^ 63) % int_mod) ((b + 2 ^ 63) % int_mod)

unfoldable pub compare_versions : Text → Text → Ordering
compare_versions a b =
    if text_eq a b
    then Ordering.eq
    else elim (compare_pkgver (split_release a).0 (split_release b).0) [
      | Ordering.eq ↦ compare_ints (split_release a).1 (split_release b).1
      | Ordering.lt ↦ Ordering.lt
      | Ordering.gt ↦ Ordering.gt
    ]

-- All of the comparison, for a test that runs it.
unfoldable pub comparison : Unit {0}
unfolding compare_versions compare_pkgver compare_segments compare_segment compare_numeric_string
    compare_text compare_ints is_prerelease_segment split_ver_segments split_release text_eq
    has_prefix all_digits cut_last release_of parse_digits pkgver_of pkgver_digits split_pkgver
comparison = tt
