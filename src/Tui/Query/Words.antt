-- ===== src/Tui/Query/Words.antt =====
-- What the tokens, the fields and the values of a parsed query look like.
use yoe.Common.{
  ◌==◌, if◌then◌else◌, Bool-cases, Option-cases, some_inj, Result-cases, ok_inj, ok, Distinct,
  elem-snoc, Distinct-put, elem-keys_put, ℕ, ◌≡◌, refl, subst, inl, inr, Bool, true, false, ◌&&◌,
  none, some, List, [], ◌∷◌, ◌++◌, arith, text_eq_refl, eq_of_text_eq, cut_byte-some, Text, text_eq,
  cut_byte, has_byte, get-put, Dict, get, elem, keys_of_dict, split_fields, has_blank, is_token,
  has_blank-append, is_token-split_fields,
}
use yoe.Tui.Query.{
  lower_byte, lower, Query, empty_query, known_fields, view_shortcuts, values_of, append_field,
  is_empty_text, parse_field, parse_token, parse_tokens, parse,
}

unfoldable pub all_lower : Text → Bool
all_lower [] = true
all_lower (c ∷ s) = (lower_byte c == c) && all_lower s

pub lower-all_lower : (s : Text) → all_lower s ≡ true → lower s ≡ s
unfolding all_lower lower
lower-all_lower [] h = refl
lower-all_lower (c ∷ s) h = ground (arith, lower-all_lower s, h)

all_lower-lower : (s : Text) → all_lower (lower s) ≡ true
unfolding all_lower lower
all_lower-lower [] = refl
all_lower-lower (c ∷ s) = ground (arith, all_lower-lower s)

pub all_lower-append : (s t : Text) → all_lower (s ++ t) ≡ (all_lower s && all_lower t)
unfolding all_lower
all_lower-append [] t = refl
all_lower-append (c ∷ s) t = ground (arith, all_lower-append s t)

has_blank-lower : (s : Text) → has_blank (lower s) ≡ has_blank s
unfolding lower has_blank
has_blank-lower [] = refl
has_blank-lower (c ∷ s) = ground (arith, has_blank-lower s)

is_token-lower : (s : Text) → is_token s ≡ true → is_token (lower s) ≡ true
unfolding lower has_blank
is_token-lower [] h = cc
is_token-lower (c ∷ s) h = ground (arith, has_blank-lower s, h)

has_byte-none : (b : ℕ) (s : Text) → cut_byte b s ≡ none → has_byte b s ≡ false
unfolding cut_byte has_byte
has_byte-none b [] h = refl
has_byte-none b (c ∷ s) h = elim (Bool-cases (c == b)) [
  | inl e ↦ cc (rw e at h)
  | inr e ↦ rw e (elim (Option-cases (cut_byte b s)) [
    | inl f ↦ has_byte-none b s f
    | inr (p, f) ↦ cc (rw (e, cut_byte, f) at h)
  ])
]

-- A value of a field: in lower case, and one token.
abbrev pub IsValue : Text → Type 0
IsValue v = (all_lower v ≡ true) × (is_token v ≡ true)

-- A bare term besides has no colon and is no shortcut.
abbrev pub IsBare : Text → Type 0
IsBare t =
    (all_lower t ≡ true)
    × (is_token t ≡ true)
    × (get t view_shortcuts ≡ none)
    × (has_byte b':' t ≡ false)

pub record IsQuery (q : Query) : Type 0 where
  pub known : (k : Text) → elem k (keys_of_dict q.fields) ≡ true → elem k known_fields ≡ true
  pub distinct : Distinct (keys_of_dict q.fields)
  pub valued : (k v : Text) → elem v (values_of q.fields k) ≡ true → IsValue v
  pub bare : (t : Text) → elem t q.bare_terms ≡ true → IsBare t

pub values-append_field :
    (q : Query) (k v j : Text)
    → values_of (append_field q k v).fields j
      ≡ (if text_eq k j then values_of q.fields j ++ (v ∷ []) else values_of q.fields j)
unfolding append_field
values-append_field q k v j =
    rw (get-put k j (values_of q.fields k ++ (v ∷ [])) q.fields) (elim (Bool-cases (text_eq k j)) [
      | inl e ↦ rw (e, eq_of_text_eq k j e) refl
      | inr e ↦ rw e refl
    ])

append_field-IsQuery :
    (q : Query) (k v : Text)
    → IsQuery q
    → elem k known_fields ≡ true
    → IsValue v
    → IsQuery (append_field q k v)
unfolding append_field elem
append_field-IsQuery q k v i m w = record {
  known = λ j h. elim (Bool-cases (text_eq k j)) [
    | inl e ↦ rw (← eq_of_text_eq k j e) m
    | inr e ↦
        i.known j
          (ground (arith, elem-keys_put j k (values_of q.fields k ++ (v ∷ [])) q.fields, h, e))
  ];
  distinct = Distinct-put k (values_of q.fields k ++ (v ∷ [])) q.fields i.distinct;
  valued = λ j x h. elim (Bool-cases (text_eq k j)) [
    | inl e ↦ elim (Bool-cases (text_eq v x)) [
      | inl f ↦ subst IsValue (eq_of_text_eq v x f) w
      | inr f ↦ i.valued j x (
          ground (
            arith,
            elem-snoc x v (values_of q.fields j),
            f,
            rw (values-append_field q k v j, e) at h,
          ))
    ]
    | inr e ↦ i.valued j x (rw (values-append_field q k v j, e) at h)
  ];
  bare = i.bare;
}

-- What holds of each entry of a map.
abbrev Entries : {A : Type 0} → (Text → A → Type 0) → Dict A → Type 0
Entries P [] = Unit
Entries P ((k, a) ∷ m) = P k a × Entries P m

get-Entries :
    {A : Type 0} (P : Text → A → Type 0) (m : Dict A) (t : Text) (a : A)
    → Entries P m
    → get t m ≡ some a
    → P t a
unfolding get
get-Entries {A} P [] t a h e = absurd (cc)
get-Entries {A} P ((k, b) ∷ m) t a h e = elim (Bool-cases (text_eq k t)) [
  | inl f ↦
      let same : b ≡ a = some_inj (rw f at e) in
      subst (λ z. P z a) (eq_of_text_eq k t f) (subst (P k) same (h.0))
  | inr f ↦ get-Entries P m t a h.1 (rw f at e)
]

-- A shortcut stands for a field that is known and for a value of it, and has no colon.
abbrev IsShortcut : Text → Text × Text → Type 0
IsShortcut t s = (elem s.0 known_fields ≡ true) × IsValue s.1 × (has_byte b':' t ≡ false)

pub get-IsShortcut : (t : Text) (s : Text × Text) → get t view_shortcuts ≡ some s → IsShortcut t s
unfolding elem text_eq has_byte has_blank all_lower
get-IsShortcut t s = get-Entries IsShortcut view_shortcuts t s (
  (refl, (refl, refl), refl),
  ((refl, (refl, refl), refl), ((refl, (refl, refl), refl), ((refl, (refl, refl), refl), tt))),
)

token-IsValue :
    (field value : Text)
    → all_lower (field ++ (b':' ∷ value)) ≡ true
    → is_token (field ++ (b':' ∷ value)) ≡ true
    → is_empty_text value ≡ false
    → IsValue value
unfolding all_lower has_blank
token-IsValue field value l t n =
    (ground (arith, all_lower-append field (b':' ∷ value), l), last value n (no_blank field t))
  where
    no_blank :
        (s : Text) → is_token (s ++ (b':' ∷ value)) ≡ true → has_blank (s ++ (b':' ∷ value)) ≡ false
    no_blank [] h = ground (arith, h)
    no_blank (c ∷ s) h = ground (arith, h)

    last :
        (v : Text)
        → is_empty_text v ≡ false
        → has_blank (field ++ (b':' ∷ v)) ≡ false
        → is_token v ≡ true
    last [] h b = cc
    last (c ∷ s) h b = ground (arith, has_blank-append field (b':' ∷ c ∷ s), b)

module _ (q : Query) (raw : Text) (i : IsQuery q) (word : is_token raw ≡ true) where
  low : all_lower (lower raw) ≡ true
  low = all_lower-lower raw

  parse_field-IsQuery :
      (field value : Text)
      → lower raw ≡ field ++ (b':' ∷ value)
      → (r : Query) → parse_field q raw field value ≡ ok r
      → IsQuery r
  unfolding parse_field
  parse_field-IsQuery field value e r h = elim (Bool-cases (is_empty_text field)) [
    | inl a ↦ cc (rw a at h)
    | inr a ↦ elim (Bool-cases (elem field known_fields)) [
      | inr b ↦ cc (rw (a, b) at h)
      | inl b ↦ elim (Bool-cases (is_empty_text value)) [
        | inl c ↦ cc (rw (a, b, c) at h)
        | inr c ↦ subst IsQuery (ok_inj (rw (a, b, c) at h)) (
            append_field-IsQuery q field value i b
              (token-IsValue field value (rw e at low) (rw e at (is_token-lower raw word)) c))
      ]
    ]
  ]

  parse_token-IsQuery : (r : Query) → parse_token q raw ≡ ok r → IsQuery r
  unfolding parse_token elem
  parse_token-IsQuery r h = elim (Option-cases (get (lower raw) view_shortcuts)) [
    | inr (s, e) ↦
        let short = get-IsShortcut (lower raw) s e in
        subst IsQuery (ok_inj (rw (e, parse_token) at h))
          (append_field-IsQuery q s.0 s.1 i short.0 short.1)
    | inl e ↦ elim (Option-cases (cut_byte b':' (lower raw))) [
      | inr ((field, value), f) ↦
          parse_field-IsQuery field value (cut_byte-some b':' (lower raw) field value f).0 r
            (rw (e, parse_token, f) at h)
      | inl f ↦ subst IsQuery (ok_inj (rw (e, parse_token, f) at h)) (record {
        known = i.known;
        distinct = i.distinct;
        valued = i.valued;
        bare = λ t m. elim (Bool-cases (text_eq (lower raw) t)) [
          | inl same ↦
              subst IsBare (eq_of_text_eq (lower raw) t same)
                (low, is_token-lower raw word, e, has_byte-none b':' (lower raw) f)
          | inr other ↦ i.bare t (ground (arith, m, elem-snoc t (lower raw) q.bare_terms, other))
        ];
      })
    ]
  ]

parse_tokens-IsQuery :
    (q : Query) (tokens : List Text) (r : Query)
    → IsQuery q
    → ((x : Text) → elem x tokens ≡ true → is_token x ≡ true)
    → parse_tokens q tokens ≡ ok r
    → IsQuery r
unfolding parse_tokens elem
parse_tokens-IsQuery q [] r i k h = subst IsQuery (ok_inj h) i
parse_tokens-IsQuery q (raw ∷ tokens) r i k h = elim (Result-cases (parse_token q raw)) [
  | inr (e, f) ↦ cc (rw (f, parse_tokens) at h)
  | inl (s, f) ↦
      parse_tokens-IsQuery s tokens r
        (parse_token-IsQuery q raw i (k raw (rw (text_eq_refl raw) refl)) s f)
        (λ x m. k x (ground (arith, m))) (rw (f, parse_tokens) at h)
]

-- Every query that `Parse` returns is well formed.
pub parse-IsQuery : (input : Text) (q : Query) → parse input ≡ ok q → IsQuery q
unfolding parse elem keys_of_dict get
parse-IsQuery input q h =
    parse_tokens-IsQuery empty_query (split_fields input) q
      (record {
        known = λ k m. cc;
        distinct = tt;
        valued = λ k v m. absurd (cc);
        bare = λ t m. absurd (cc);
      })
      (is_token-split_fields input) h
