-- ===== src/Apkindex/Version/Segments.antt =====
-- The segments that `splitVerSegments` returns are not empty, and each is either all digits or
-- starts with no digit.
use yoe.Common.{
  ◌==◌, if◌then◌else◌, if_elim, ℕ, ◌≡◌, refl, Bool, true, false, not, ◌&&◌, List, [], ◌∷◌, ◌++◌,
  arith, Text, codes,
}
use yoe.Apkindex.Version.{
  is_digit, digits_only, all_digits, PrevKind, nothing, digit, alpha, flush, is_separator,
  segments_from, split_ver_segments, is_alpha_kind, is_digit_kind,
}

-- A segment is all digits, or it starts with another byte.
unfoldable pub well_segment : Text → Bool
well_segment [] = false
well_segment (c ∷ s) = if is_digit c then digits_only s else true

unfoldable pub all_well : List Text → Bool
unfolding well_segment
all_well [] = true
all_well (s ∷ ss) = well_segment s && all_well ss

starts_other : Text → Bool
starts_other [] = false
starts_other (c ∷ s) = not (is_digit c)

-- What `cur` holds, by the kind of the byte before.
cur_fits : PrevKind → Text → Bool
unfolding starts_other
cur_fits nothing [] = true
cur_fits nothing (_ ∷ _) = false
cur_fits digit cur = all_digits cur
cur_fits alpha cur = starts_other cur

all_well-append : (xs ys : List Text) → all_well (xs ++ ys) ≡ all_well xs && all_well ys
unfolding all_well
all_well-append [] ys = refl
all_well-append (x ∷ xs) ys = ground (arith, all_well-append xs ys)

well_segment-cur :
    (kind : PrevKind) (c : ℕ) (cur : Text)
    → cur_fits kind (c ∷ cur) ≡ true
    → well_segment (c ∷ cur) ≡ true
unfolding cur_fits well_segment all_digits digits_only
well_segment-cur nothing c cur h = cc
well_segment-cur digit c cur h = ground arith
well_segment-cur alpha c cur h = ground arith

flush-well :
    (out : List Text) (kind : PrevKind) (cur : Text)
    → all_well out ≡ true
    → cur_fits kind cur ≡ true
    → all_well (flush out cur) ≡ true
unfolding flush
flush-well out kind [] o h = o
flush-well out kind (c ∷ cur) o h =
    rw (all_well-append out ((c ∷ cur) ∷ []))
      (unfold all_well in rw o (rw (well_segment-cur kind c cur h)))

digits_only-snoc :
    (s : Text) (r : ℕ)
    → digits_only s ≡ true
    → is_digit r ≡ true
    → digits_only (s ++ (r ∷ [])) ≡ true
unfolding digits_only
digits_only-snoc [] r h d = ground arith
digits_only-snoc (c ∷ s) r h d = ground (arith, digits_only-snoc s r)

-- A digit is put behind what is left of `cur`.
cur_fits-digit :
    (kind : PrevKind) (cur : Text) (r : ℕ)
    → cur_fits kind cur ≡ true
    → is_digit r ≡ true
    → cur_fits digit (if is_alpha_kind kind then r ∷ [] else cur ++ (r ∷ [])) ≡ true
unfolding cur_fits all_digits
cur_fits-digit nothing [] r h d = unfold digits_only in rw d
cur_fits-digit nothing (c ∷ cur) r h d = cc
cur_fits-digit digit [] r h d = cc
cur_fits-digit digit (c ∷ cur) r h d = digits_only-snoc (c ∷ cur) r h d
cur_fits-digit alpha cur r h d = unfold digits_only in rw d

cur_fits-alpha :
    (kind : PrevKind) (cur : Text) (r : ℕ)
    → cur_fits kind cur ≡ true
    → is_digit r ≡ false
    → cur_fits alpha (if is_digit_kind kind then r ∷ [] else cur ++ (r ∷ [])) ≡ true
unfolding cur_fits
cur_fits-alpha nothing [] r h d = rw d
cur_fits-alpha nothing (c ∷ cur) r h d = cc
cur_fits-alpha digit cur r h d = rw d
cur_fits-alpha alpha [] r h d = cc
cur_fits-alpha alpha (c ∷ cur) r h d = h

if-well :
    (b : Bool) (xs ys : List Text)
    → all_well xs ≡ true
    → all_well ys ≡ true
    → all_well (if b then xs else ys) ≡ true
if-well true xs ys hx hy = hx
if-well false xs ys hx hy = hy

segments_from-well :
    (v : Text) (out : List Text) (cur : Text) (kind : PrevKind)
    → all_well out ≡ true
    → cur_fits kind cur ≡ true
    → all_well (segments_from out cur kind v) ≡ true
unfolding segments_from
segments_from-well [] out cur kind o h = flush-well out kind cur o h
segments_from-well (r ∷ v) out cur kind o h =
    let flushed = flush-well out kind cur o h in
    let marked : all_well (flush out cur ++ (codes "_" ∷ [])) ≡ true =
      rw (all_well-append (flush out cur) (codes "_" ∷ []))
        (unfold all_well is_digit in rw flushed) in
    if_elim (λ l. all_well l ≡ true) (is_separator r)
      (λ _.
        segments_from-well v _ [] nothing (if-well (r == b'_') _ _ marked flushed)
          (unfold cur_fits in refl))
      (λ _.
        if_elim (λ l. all_well l ≡ true) (is_digit r)
          (λ d.
            segments_from-well v _ _ digit (if-well (is_alpha_kind kind) _ _ flushed o)
              (cur_fits-digit kind cur r h d))
          (λ d.
            segments_from-well v _ _ alpha (if-well (is_digit_kind kind) _ _ flushed o)
              (cur_fits-alpha kind cur r h d)))

-- Every segment of a version is nonempty, and all digits or starts with no digit.
pub split_ver_segments-well : (v : Text) → all_well (split_ver_segments v) ≡ true
unfolding split_ver_segments all_well cur_fits
split_ver_segments-well v = segments_from-well v [] [] nothing refl refl
