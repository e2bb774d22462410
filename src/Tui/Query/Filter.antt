-- ===== src/Tui/Query/Filter.antt =====
-- Which units a query matches.
use yoe.Common.{
  ◌==◌, if◌then◌else◌, Bool-cases, length, ok, Distinct, ◌≡◌, refl, sym, ap, ◌∙◌, subst, ◌↔◌, inl,
  inr, true, false, not, ◌&&◌, Option, List, [], ◌∷◌, ◌++◌, arith, text_eq_refl, eq_of_text_eq,
  text_eq_iff, has_prefix_append, Text, codes, text_eq, has_prefix, Dict, get, elem, keys_of_dict,
}
use yoe.Starlark.Units.{PackageUnit}
use yoe.Tui.Query.{
  lower, Query, values_of, parse, is_empty_query, contains, any_equals, contains_all, field_value,
  in_closure, match_fields, matches,
}
use yoe.Tui.Query.Words.{parse-IsQuery}

-- The needle stands somewhere in the text.
abbrev pub Contains : Text → Text → Type 0
Contains s needle = (a : Text) × (b : Text) × (s ≡ a ++ (needle ++ b))

has_prefix-some : (s p : Text) → has_prefix s p ≡ true → (b : Text) × (s ≡ p ++ b)
unfolding has_prefix
has_prefix-some s [] h = (s, refl)
has_prefix-some [] (c ∷ p) h = absurd (cc)
has_prefix-some (c ∷ s) (d ∷ p) h =
    let (b, e) = has_prefix-some s p (ground (arith, h)) in
    let same : c ≡ d = ground (arith, h) in (b, cc)

contains-Contains : (s needle : Text) → contains s needle ≡ true → Contains s needle
unfolding contains
contains-Contains [] needle h = let (b, e) = has_prefix-some [] needle h in ([], b, e)
contains-Contains (c ∷ s) needle h = elim (Bool-cases (has_prefix (c ∷ s) needle)) [
  | inl e ↦ let (b, f) = has_prefix-some (c ∷ s) needle e in ([], b, f)
  | inr e ↦
      let (a, b, f) = contains-Contains s needle (ground (arith, h, e)) in
      (c ∷ a, b, ap (λ t. c ∷ t) f)
]

contains-append : (a needle b : Text) → contains (a ++ (needle ++ b)) needle ≡ true
unfolding contains has_prefix
contains-append [] [] [] = refl
contains-append [] [] (c ∷ b) = refl
contains-append [] (c ∷ needle) b = ground (arith, has_prefix_append needle b)
contains-append (c ∷ a) needle b = ground (arith, contains-append a needle b)

any_equals-elem : (got : Text) (vals : List Text) → any_equals got vals ≡ elem got vals
unfolding any_equals elem
any_equals-elem got [] = refl
any_equals-elem got (v ∷ vals) =
    ground (arith, any_equals-elem got vals, text_eq_iff got v, text_eq_iff v got)

contains_all-elem :
    (name : Text) (terms : List Text)
    → contains_all name terms ≡ true ↔ ((t : Text) → elem t terms ≡ true → contains name t ≡ true)
unfolding contains_all elem
contains_all-elem name [] = (λ h t m. cc, λ k. refl)
contains_all-elem name (t ∷ terms) = (
  λ h x m. elim (Bool-cases (text_eq t x)) [
    | inl e ↦ rw (← eq_of_text_eq t x e) (ground (arith, h))
    | inr e ↦ (contains_all-elem name terms).0 (ground (arith, h)) x (rw e at m)
  ],
  λ k.
      let here : contains name t ≡ true = k t (rw (text_eq_refl t) refl) in
      let rest : contains_all name terms ≡ true =
        (contains_all-elem name terms).1 (λ x m. k x (ground (arith, m))) in
      rw (here, rest) refl,
)

module _ (name : Text) (u : Option PackageUnit) (status : Text) (in_set : Option (List Text)) where
  -- What a field with these values asks of the unit.
  abbrev pub Holds : Text → List Text → Type 0
  Holds field values =
      (text_eq field (codes "in") ≡ true → in_closure in_set name ≡ true)
      × (text_eq field (codes "in") ≡ false → elem (field_value u status field) values ≡ true)

  Holds-test :
      (field : Text) (values : List Text)
      → Holds field values ↔ (
          (if text_eq field (codes "in")
            then in_closure in_set name
            else any_equals (field_value u status field) values)
          ≡ true)
  Holds-test field values = elim (Bool-cases (text_eq field (codes "in"))) [
    | inl e ↦ (λ h. rw e (h.0 e), λ k. (λ f. rw e at k, λ f. cc))
    | inr e ↦ (
      λ h. rw e (any_equals-elem (field_value u status field) values ∙ h.1 e),
      λ k. (λ f. cc, λ f. sym (any_equals-elem (field_value u status field) values) ∙ (rw e at k)),
    )
  ]

  -- What a query asks: each bare term stands in the unit's name, and each field holds.
  pub record Satisfies (q : Query) : Type 0 where
    pub terms : (t : Text) → elem t q.bare_terms ≡ true → Contains (lower name) t
    pub fields : (k : Text) → elem k (keys_of_dict q.fields) ≡ true → Holds k (values_of q.fields k)

  match_fields-Holds :
      (fields : Dict (List Text))
      → Distinct (keys_of_dict fields)
      → match_fields name u status in_set fields ≡ true
        ↔ ((k : Text) → elem k (keys_of_dict fields) ≡ true → Holds k (values_of fields k))
  unfolding match_fields keys_of_dict elem get
  match_fields-Holds [] d = (λ h k m. absurd (cc), λ k. refl)
  match_fields-Holds ((j, values) ∷ fields) d = (
    λ h k m. elim (Bool-cases (text_eq j k)) [
      | inl e ↦ rw e (
          subst (λ z. Holds z values) (eq_of_text_eq j k e)
            ((Holds-test j values).1 (ground (arith, h))))
      | inr e ↦ rw e ((match_fields-Holds fields d.1).0 (ground (arith, h)) k (rw e at m))
    ],
    λ k.
        let mine : Holds j values = rw (text_eq_refl j) at (k j (rw (text_eq_refl j) refl)) in
        let here = (Holds-test j values).0 mine in
        let rest : match_fields name u status in_set fields ≡ true =
          (match_fields-Holds fields d.1).1 (λ x m. others x m (k x (ground (arith, m)))) in
        ground (arith, here, rest),
  )
    where
      others :
          (x : Text)
          → elem x (keys_of_dict fields) ≡ true
          → Holds x (values_of ((j, values) ∷ fields) x)
          → Holds x (values_of fields x)
      others x m h = elim (Bool-cases (text_eq j x)) [
        | inl e ↦ cc (rw (← eq_of_text_eq j x e) at m, d.0)
        | inr e ↦ rw e at h
      ]

  -- The two loops say of an empty query what its own branch says.
  matches-loops :
      (q : Query)
      → matches q name u status in_set
        ≡ (contains_all (lower name) q.bare_terms && match_fields name u status in_set q.fields)
  unfolding matches is_empty_query contains_all match_fields
  matches-loops q = go q.fields q.bare_terms
    where
      go :
          (fields : Dict (List Text)) (terms : List Text)
          → (if length fields == 0 && length terms == 0
              then true
              else (if not (contains_all (lower name) terms)
                  then false
                  else match_fields name u status in_set fields))
            ≡ (contains_all (lower name) terms && match_fields name u status in_set fields)
      go [] [] = refl
      go [] (t ∷ terms) = ground arith
      go (f ∷ fields) terms = ground arith

  -- A query that `Parse` returned matches a unit exactly if every bare term stands somewhere in the
  -- unit's name in lower case, the unit is in the given set if the query has an `in:` filter,
  -- however many values that has and whatever they are, and the unit has one of the values of every other
  -- field.
  pub matches-Satisfies :
      (input : Text) (q : Query)
      → parse input ≡ ok q
      → matches q name u status in_set ≡ true ↔ Satisfies q
  matches-Satisfies input q h =
      let i = parse-IsQuery input q h in
      let loops = matches-loops q in
      let by_terms = contains_all-elem (lower name) q.bare_terms in
      let by_fields = match_fields-Holds q.fields i.distinct in
      (
        λ m. record {
          terms =
              λ t n. contains-Contains (lower name) t (by_terms.0 (ground (arith, m, loops)) t n);
          fields = by_fields.0 (ground (arith, m, loops));
        },
        λ s.
            let a = by_terms.1 (λ t n. found t (s.terms t n)) in
            let b = by_fields.1 s.fields in loops ∙ rw (a, b) refl,
      )
    where
      found : (t : Text) → Contains (lower name) t → contains (lower name) t ≡ true
      found t (a, b, e) = rw e (contains-append a t b)
