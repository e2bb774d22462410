-- ===== src/Tui/Query/Print.antt =====
-- What `String` prints is read back by `Parse`.
use yoe.Common.{
  ◌==◌, if◌then◌else◌, Bool-cases, length, ok, elem-append, count-of_Distinct, Distinct-of_count,
  sort_strings, count-sort_strings, elem-sort_strings, ◌≡◌, refl, sym, ap, ◌∙◌, inl, inr, true,
  false, ◌&&◌, List, [], ◌∷◌, ◌++◌, arith, text_eq_refl, eq_of_text_eq, Text, text_eq, Dict, get,
  elem, keys_of_dict, split_fields, join_fields, is_token, split_fields-join_fields,
}
use yoe.Tui.Query.{
  Query, empty_query, known_fields, values_of, parse_tokens, parse, field_parts, all_parts, render,
  is_empty_query,
}
use yoe.Tui.Query.Words.{IsValue, parse-IsQuery}
use yoe.Tui.Query.Parts.{
  is_token-part, append_all, values-append_all, bare-append_all, parse_tokens-all_parts,
  parse_tokens-bare,
}

-- The two branches of `String` print the same of an empty query.
render-parts :
    (q : Query)
    → render q
      ≡ join_fields (all_parts q.fields (sort_strings (keys_of_dict q.fields)) ++ q.bare_terms)
unfolding render is_empty_query join_fields all_parts sort_strings keys_of_dict
render-parts q = elim (Bool-cases (is_empty_query q)) [
  | inr e ↦ rw e refl
  | inl e ↦ rw e (nothing q.fields q.bare_terms e)
]
  where
    nothing :
        (fields : Dict (List Text)) (terms : List Text)
        → (length fields == 0 && length terms == 0) ≡ true
        → [] ≡ join_fields (all_parts fields (sort_strings (keys_of_dict fields)) ++ terms)
    nothing [] [] e = refl
    nothing [] (t ∷ terms) e = absurd (ground (arith, e))
    nothing (f ∷ fields) terms e = absurd (ground (arith, e))

field_parts-token :
    (k : Text) (vs : List Text)
    → elem k known_fields ≡ true
    → ((v : Text) → elem v vs ≡ true → IsValue v)
    → (x : Text) → elem x (field_parts k vs) ≡ true
    → is_token x ≡ true
unfolding field_parts elem
field_parts-token k [] m w x n = cc
field_parts-token k (v ∷ vs) m w x n = elim (Bool-cases (text_eq (k ++ (b':' ∷ v)) x)) [
  | inl e ↦ rw (← eq_of_text_eq _ x e) (is_token-part k v m (w v (rw (text_eq_refl v) refl)))
  | inr e ↦ field_parts-token k vs m (λ y l. w y (ground (arith, l))) x (rw e at n)
]

all_parts-token :
    (fields : Dict (List Text)) (ks : List Text)
    → ((k : Text) → elem k ks ≡ true → elem k known_fields ≡ true)
    → ((k v : Text) → elem v (values_of fields k) ≡ true → IsValue v)
    → (x : Text) → elem x (all_parts fields ks) ≡ true
    → is_token x ≡ true
unfolding all_parts elem
all_parts-token fields [] m w x n = cc
all_parts-token fields (k ∷ ks) m w x n =
    elim (Bool-cases (elem x (field_parts k (values_of fields k)))) [
      | inl e ↦
          field_parts-token k (values_of fields k) (m k (rw (text_eq_refl k) refl)) (λ v. w k v) x e
      | inr e ↦
          all_parts-token fields ks (λ j l. m j (ground (arith, l))) w x
            (ground (
              arith,
              n,
              e,
              elem-append x (field_parts k (values_of fields k)) (all_parts fields ks),
            ))
    ]

kept :
    (fields : Dict (List Text)) (k : Text)
    → (if elem k (sort_strings (keys_of_dict fields)) then values_of fields k else [])
      ≡ values_of fields k
unfolding elem get keys_of_dict
kept fields k = elim (Bool-cases (elem k (keys_of_dict fields))) [
  | inl e ↦ rw (elem-sort_strings k (keys_of_dict fields), e) refl
  | inr e ↦ rw (elem-sort_strings k (keys_of_dict fields), e) (sym (missing fields e))
]
  where
    missing : (m : Dict (List Text)) → elem k (keys_of_dict m) ≡ false → values_of m k ≡ []
    missing [] n = refl
    missing ((j, vs) ∷ m) n = elim (Bool-cases (text_eq j k)) [
      | inl e ↦ cc (rw e at n)
      | inr e ↦ rw e (missing m (rw e at n))
    ]

-- `String` prints a query that `Parse` returned so that `Parse` reads it back: the same values of every
-- field, in their order, and the same bare terms.
pub parse-render :
    (input : Text) (q : Query)
    → parse input ≡ ok q
    → (r : Query) × (parse (render q) ≡ ok r)
      × ((k : Text) → values_of r.fields k ≡ values_of q.fields k)
      × (r.bare_terms ≡ q.bare_terms)
unfolding parse elem get
parse-render input q h =
    let i = parse-IsQuery input q h in
    let keys = sort_strings (keys_of_dict q.fields) in
    let listed : (k : Text) → elem k keys ≡ true → elem k known_fields ≡ true =
      λ k m. i.known k (sym (elem-sort_strings k (keys_of_dict q.fields)) ∙ m) in
    let parts = all_parts q.fields keys in
    let filled = append_all empty_query q.fields keys in
    let once = Distinct-of_count keys (λ k. ground (
      arith,
      count-sort_strings k (keys_of_dict q.fields),
      count-of_Distinct k (keys_of_dict q.fields) i.distinct,
    )) in
    let words = split_fields-join_fields (parts ++ q.bare_terms) (λ x m.
      elim (Bool-cases (elem x parts)) [
        | inl e ↦ all_parts-token q.fields keys listed i.valued x e
        | inr e ↦ (i.bare x (ground (arith, m, e, elem-append x parts q.bare_terms))).1
      ]) in
    let no_bare : filled.bare_terms ≡ [] = bare-append_all q.fields keys empty_query in
    (
      record filled { bare_terms = filled.bare_terms ++ q.bare_terms },
      ap (λ t. parse_tokens empty_query (split_fields t)) (render-parts q)
          ∙ ap (parse_tokens empty_query) words
          ∙ parse_tokens-all_parts q.fields keys empty_query q.bare_terms listed i.valued
          ∙ parse_tokens-bare q.bare_terms filled i.bare,
      λ k. values-append_all q.fields keys empty_query k once ∙ kept q.fields k,
      ap (λ l. l ++ q.bare_terms) no_bare,
    )
