-- ===== src/Apkindex/Version/Release.antt =====
-- The two splitters of a release number, `splitRelease` and `splitPkgver`, and what they return.
use yoe.Common.{
  ltb, ◌==◌, if◌then◌else◌, ℕ, ◌+◌, ◌-◌, ◌*◌, ◌%◌, ◌≡◌, refl, ap, ◌∙◌, Bool, true, false, ◌&&◌,
  Option, none, some, [], ◌∷◌, ◌++◌, arith, Text, codes,
}
use yoe.Apkindex.Version.{
  is_digit, digits_only, all_digits, parse_digits, cut_here, cut_last, split_release, pkgver_digits,
  split_pkgver, int_mod, pkgver_of, release_of,
}

pkgver_digits_lem :
    (n : ℕ) (s : Text)
    → pkgver_digits n s ≡ (if digits_only s then some (parse_digits n s) else none)
unfolding pkgver_digits digits_only is_digit parse_digits
pkgver_digits_lem n [] = refl
pkgver_digits_lem n (c ∷ s) = ground (arith, pkgver_digits_lem ((n * 10 + (c - b'0')) % int_mod) s)

pkgver_of-eq-release_of : (v l tail : Text) → pkgver_of v l tail ≡ release_of v l tail
unfolding pkgver_of release_of all_digits
pkgver_of-eq-release_of v l [] = refl
pkgver_of-eq-release_of v l (c ∷ tail) = ground (arith, pkgver_digits_lem 0 (c ∷ tail))

same_split : (v : Text) → split_pkgver v ≡ split_release v
unfolding split_pkgver split_release
same_split v = go (cut_last v)
  where
    go :
        (o : Option (Text × Text))
        → (elim o as (λ _. Text × ℕ) [ none ↦ (v, 0) | some (l, tail) ↦ pkgver_of v l tail ])
          ≡ (elim o as (λ _. Text × ℕ) [ none ↦ (v, 0) | some (l, tail) ↦ release_of v l tail ])
    go none = refl
    go (some (l, tail)) = pkgver_of-eq-release_of v l tail

unfoldable pub is_ascii : Text → Bool
is_ascii [] = true
is_ascii (c ∷ s) = ltb c 128 && is_ascii s

-- The two splitters agree on every version that is an ASCII text.
pub split_pkgver-eq-split_release :
    (v : Text) → is_ascii v ≡ true → split_pkgver v ≡ split_release v
split_pkgver-eq-split_release v _ = same_split v

cut_here-other : (c : ℕ) (s : Text) → (c == b'-') ≡ false → cut_here c s ≡ none
unfolding cut_here
cut_here-other c [] h = refl
cut_here-other c (d ∷ s) h = ground arith

cut_last-digits : (ds : Text) → digits_only ds ≡ true → cut_last ds ≡ none
unfolding cut_last digits_only is_digit
cut_last-digits [] h = refl
cut_last-digits (c ∷ ds) h = ground (arith, cut_last-digits ds, cut_here-other c ds)

cut_last-append :
    (l ds : Text) → digits_only ds ≡ true → cut_last (l ++ (codes "-r" ++ ds)) ≡ some (l, ds)
unfolding cut_last
cut_last-append [] ds h =
    rw (cut_last-digits ds h) (rw (cut_here-other b'r' ds refl) (unfold cut_here in refl))
cut_last-append (c ∷ l) ds h = rw (cut_last-append l ds h)

-- A number in decimal, whatever its size.
pub decimal : ℕ → Text → ℕ
decimal n [] = n
decimal n (c ∷ s) = decimal (n * 10 + (c - b'0')) s

parse_digits-decimal : (n : ℕ) (s : Text) → parse_digits (n % int_mod) s ≡ decimal n s % int_mod
unfolding parse_digits decimal
parse_digits-decimal n [] = refl
parse_digits-decimal n (c ∷ s) =
    ap (λ k. parse_digits k s) (omega arith) ∙ parse_digits-decimal (n * 10 + (c - b'0')) s

split_release-some :
    (v l tail : Text) → cut_last v ≡ some (l, tail) → split_release v ≡ release_of v l tail
unfolding split_release
split_release-some v l tail e = rw (e, split_release)

release_of-digits :
    (v l ds : Text) → all_digits ds ≡ true → release_of v l ds ≡ (l, decimal 0 ds % int_mod)
unfolding release_of
release_of-digits v l ds h = rw h (ap (λ (n : ℕ). (l, n)) (parse_digits-decimal 0 ds))

digits_only_of_all_digits : (s : Text) → all_digits s ≡ true → digits_only s ≡ true
unfolding all_digits
digits_only_of_all_digits [] h = cc
digits_only_of_all_digits (c ∷ s) h = h

-- A version `l-rN` is split at its release: both splitters return `l` and the number `N`, which
-- wraps at `2 ^ 64`.
pub split_pkgver-append :
    (l ds : Text)
    → all_digits ds ≡ true
    → (split_pkgver (l ++ (codes "-r" ++ ds)) ≡ (l, decimal 0 ds % int_mod))
      × (split_release (l ++ (codes "-r" ++ ds)) ≡ (l, decimal 0 ds % int_mod))
split_pkgver-append l ds h =
    let v = l ++ (codes "-r" ++ ds) in
    let e =
      split_release-some v l ds (cut_last-append l ds (digits_only_of_all_digits ds h))
      ∙ release_of-digits v l ds h in
    (same_split v ∙ e, e)
