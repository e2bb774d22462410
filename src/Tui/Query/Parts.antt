-- ===== src/Tui/Query/Parts.antt =====
-- How `Parse` reads the parts that `String` joins.
use yoe.Common.{
  if◌then◌else◌, Bool-cases, Option-cases, ok, Distinct, ◌≡◌, refl, sym, ap, ◌∙◌, subst, inl, inr,
  Bool, true, false, none, some, List, [], ◌∷◌, ◌++◌, append-nil, append_assoc, arith, text_eq_refl,
  eq_of_text_eq, cut_byte-none, cut_byte-append, Text, text_eq, cut_byte, has_byte, Dict, get, elem,
  has_blank, is_token, has_blank-append,
}
use yoe.Tui.Query.{
  lower, Query, known_fields, view_shortcuts, values_of, append_field, is_empty_text, parse_field,
  parse_token, parse_tokens, field_parts, all_parts,
}
use yoe.Tui.Query.Words.{
  all_lower, all_lower-append, lower-all_lower, IsValue, IsBare, values-append_field,
  get-IsShortcut,
}

abbrev IsField : Text → Type 0
IsField k =
    (all_lower k ≡ true)
    × (has_blank k ≡ false)
    × (has_byte b':' k ≡ false)
    × (is_empty_text k ≡ false)

abbrev Each : (Text → Type 0) → List Text → Type 0
Each P [] = Unit
Each P (x ∷ xs) = P x × Each P xs

Each-elem : (P : Text → Type 0) (xs : List Text) (x : Text) → Each P xs → elem x xs ≡ true → P x
unfolding elem
Each-elem P [] x a m = absurd (cc)
Each-elem P (y ∷ xs) x a m = elim (Bool-cases (text_eq y x)) [
  | inl e ↦ subst P (eq_of_text_eq y x e) (a.0)
  | inr e ↦ Each-elem P xs x a.1 (rw e at m)
]

known-IsField : (k : Text) → elem k known_fields ≡ true → IsField k
unfolding all_lower has_blank has_byte
known-IsField k m =
    Each-elem IsField known_fields k
      (
        (refl, refl, refl, refl),
        ((refl, refl, refl, refl), ((refl, refl, refl, refl), ((refl, refl, refl, refl), tt))),
      )
      m

module _ (k v : Text) (m : elem k known_fields ≡ true) (w : IsValue v) where
  abbrev pub part : Text
  part = k ++ (b':' ∷ v)

  has_colon : (s : Text) → has_byte b':' (s ++ (b':' ∷ v)) ≡ true
  unfolding has_byte
  has_colon [] = refl
  has_colon (c ∷ s) = ground (arith, has_colon s)

  all_lower-part : all_lower part ≡ true
  unfolding all_lower
  all_lower-part = ground (arith, all_lower-append k (b':' ∷ v), known-IsField k m, w)

  value_word : (t : Text) → is_token t ≡ true → (has_blank t ≡ false) × (is_empty_text t ≡ false)
  value_word [] h = absurd (cc)
  value_word (c ∷ s) h = (ground (arith, h), refl)

  pub is_token-part : is_token part ≡ true
  unfolding has_blank
  is_token-part =
      go k (ground (arith, has_blank-append k (b':' ∷ v), known-IsField k m, value_word v w.1))
    where
      go : (s : Text) → has_blank (s ++ (b':' ∷ v)) ≡ false → is_token (s ++ (b':' ∷ v)) ≡ true
      go [] h = rw h refl
      go (c ∷ s) h = rw h refl

  no_shortcut : get part view_shortcuts ≡ none
  no_shortcut = elim (Option-cases (get part view_shortcuts)) [
    | inl e ↦ e
    | inr (s, e) ↦ absurd (both ((get-IsShortcut part s e).2) (has_colon k))
  ]
    where
      both : {b : Bool} → b ≡ false → b ≡ true → ⊥
      both f t = cc

  parse_token-part : (q : Query) → parse_token q part ≡ ok (append_field q k v)
  unfolding parse_token parse_field
  parse_token-part q =
      let f = known-IsField k m in
      let low : lower part ≡ part = lower-all_lower part all_lower-part in
      let cut : cut_byte b':' part ≡ some (k, v) = cut_byte-append b':' k v (f.2) in
      rw (low, parse_token, no_shortcut, low, cut) (rw (f.3, m, (value_word v w.1).1) refl)

unfoldable pub append_fields : Query → Text → List Text → Query
append_fields q k [] = q
append_fields q k (v ∷ vs) = append_fields (append_field q k v) k vs

values-append_fields :
    (q : Query) (k : Text) (vs : List Text) (j : Text)
    → values_of (append_fields q k vs).fields j
      ≡ (if text_eq k j then values_of q.fields j ++ vs else values_of q.fields j)
unfolding append_fields
values-append_fields q k [] j = elim (Bool-cases (text_eq k j)) [
  | inl e ↦ rw e (sym (append-nil (values_of q.fields j)))
  | inr e ↦ rw e refl
]
values-append_fields q k (v ∷ vs) j = elim (Bool-cases (text_eq k j)) [
  | inl e ↦
      values-append_fields (append_field q k v) k vs j
      ∙ rw e (
          ap (λ l. l ++ vs) (values-append_field q k v j ∙ rw e refl)
          ∙ append_assoc (values_of q.fields j) (v ∷ []) vs)
  | inr e ↦
      values-append_fields (append_field q k v) k vs j
      ∙ rw e (values-append_field q k v j ∙ rw e refl)
]

bare-append_fields :
    (q : Query) (k : Text) (vs : List Text) → (append_fields q k vs).bare_terms ≡ q.bare_terms
unfolding append_fields append_field
bare-append_fields q k [] = refl
bare-append_fields q k (v ∷ vs) = bare-append_fields (append_field q k v) k vs

parse_tokens-field_parts :
    (q : Query) (k : Text) (vs rest : List Text)
    → elem k known_fields ≡ true
    → ((v : Text) → elem v vs ≡ true → IsValue v)
    → parse_tokens q (field_parts k vs ++ rest) ≡ parse_tokens (append_fields q k vs) rest
unfolding parse_tokens field_parts append_fields elem
parse_tokens-field_parts q k [] rest m w = refl
parse_tokens-field_parts q k (v ∷ vs) rest m w =
    rw (parse_token-part k v m (w v (rw (text_eq_refl v) refl)) q, parse_tokens)
      (parse_tokens-field_parts (append_field q k v) k vs rest m (λ x n. w x (ground (arith, n))))

unfoldable pub append_all : Query → Dict (List Text) → List Text → Query
append_all q fields [] = q
append_all q fields (k ∷ ks) = append_all (append_fields q k (values_of fields k)) fields ks

pub values-append_all :
    (fields : Dict (List Text)) (ks : List Text) (q : Query) (j : Text)
    → Distinct ks
    → values_of (append_all q fields ks).fields j
      ≡ (if elem j ks then values_of q.fields j ++ values_of fields j else values_of q.fields j)
unfolding append_all elem
values-append_all fields [] q j d = refl
values-append_all fields (k ∷ ks) q j d =
    let more = append_fields q k (values_of fields k) in
    let one = values-append_fields q k (values_of fields k) j in
    values-append_all fields ks more j d.1 ∙ elim (Bool-cases (text_eq k j)) [
      | inl e ↦
          let absent : elem j ks ≡ false =
            subst (λ z. elem z ks ≡ false) (eq_of_text_eq k j e) (d.0) in
          rw (absent, e)
            (one
              ∙ rw e (ap (λ z. values_of q.fields j ++ values_of fields z) (eq_of_text_eq k j e)))
      | inr e ↦ rw e (ap (λ l. if elem j ks then l ++ values_of fields j else l) (one ∙ rw e refl))
    ]

pub bare-append_all :
    (fields : Dict (List Text)) (ks : List Text) (q : Query)
    → (append_all q fields ks).bare_terms ≡ q.bare_terms
unfolding append_all
bare-append_all fields [] q = refl
bare-append_all fields (k ∷ ks) q =
    bare-append_all fields ks (append_fields q k (values_of fields k))
    ∙ bare-append_fields q k (values_of fields k)

pub parse_tokens-all_parts :
    (fields : Dict (List Text)) (ks : List Text) (q : Query) (rest : List Text)
    → ((k : Text) → elem k ks ≡ true → elem k known_fields ≡ true)
    → ((k v : Text) → elem v (values_of fields k) ≡ true → IsValue v)
    → parse_tokens q (all_parts fields ks ++ rest) ≡ parse_tokens (append_all q fields ks) rest
unfolding all_parts append_all elem
parse_tokens-all_parts fields [] q rest m w = refl
parse_tokens-all_parts fields (k ∷ ks) q rest m w =
    ap (parse_tokens q)
      (append_assoc (field_parts k (values_of fields k)) (all_parts fields ks) rest)
    ∙ parse_tokens-field_parts q k (values_of fields k) (all_parts fields ks ++ rest)
        (m k (rw (text_eq_refl k) refl)) (λ v. w k v)
    ∙ parse_tokens-all_parts fields ks (append_fields q k (values_of fields k)) rest
        (λ j n. m j (ground (arith, n))) w

bare_token :
    (q : Query) (t : Text)
    → lower t ≡ t
    → IsBare t
    → parse_token q t ≡ ok (record q { bare_terms = q.bare_terms ++ (t ∷ []) })
unfolding parse_token
bare_token q t low b = rw (low, parse_token, b.2, low, cut_byte-none b':' t (b.3), low) refl

pub parse_tokens-bare :
    (terms : List Text) (q : Query)
    → ((t : Text) → elem t terms ≡ true → IsBare t)
    → parse_tokens q terms ≡ ok (record q { bare_terms = q.bare_terms ++ terms })
unfolding parse_tokens elem
parse_tokens-bare [] q b =
    ap (λ l. ok (record q { bare_terms = l })) (sym (append-nil q.bare_terms))
parse_tokens-bare (t ∷ terms) q b =
    let bare = b t (rw (text_eq_refl t) refl) in
    let low : lower t ≡ t = lower-all_lower t bare.0 in
    let one : parse_token q t ≡ ok (record q { bare_terms = q.bare_terms ++ (t ∷ []) }) =
      bare_token q t low bare in
    rw (one, parse_tokens)
      (parse_tokens-bare terms (record q { bare_terms = q.bare_terms ++ (t ∷ []) })
          (λ x m. b x (ground (arith, m)))
        ∙ ap (λ l. ok (record q { bare_terms = l })) (append_assoc q.bare_terms (t ∷ []) terms))
