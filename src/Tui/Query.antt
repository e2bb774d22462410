-- ===== src/Tui/Query.antt =====
-- internal/tui/query/parser.go and match.go: the search expressions of the terminal's user interface.
-- A lookup of a key that the map of fields has not reads the empty list, as in Go.
pub mod Words
pub mod Parts
pub mod Print
pub mod Filter
mod Tests
use yoe.Common.{
  ltb, leb, ◌==◌, if◌then◌else◌, length, Result, ok, err, sort_strings, ℕ, ◌+◌, Bool, true, false,
  not, ◌&&◌, ◌||◌, Option, none, some, List, [], ◌∷◌, ◌++◌, Text, codes, text_eq, has_prefix,
  cut_byte, Dict, get, put, elem, keys_of_dict, split_fields, join_fields,
}
use yoe.Starlark.Units.{PackageUnit}

-- `strings.ToLower` of an ASCII text.
abbrev pub lower_byte : ℕ → ℕ
lower_byte c = if leb b'A' c && leb c b'Z' then c + 32 else c

unfoldable pub lower : Text → Text
lower [] = []
lower (c ∷ s) = lower_byte c ∷ lower s

pub record Query : Type 0 where
  pub fields : Dict (List Text)
  pub bare_terms : List Text

abbrev pub empty_query : Query
empty_query = record { fields = []; bare_terms = [] }

abbrev pub known_fields : List Text
known_fields = codes "type" ∷ codes "module" ∷ codes "status" ∷ codes "in" ∷ []

abbrev pub view_shortcuts : Dict (Text × Text)
view_shortcuts =
    (codes "images", (codes "type", codes "image"))
    ∷ (codes "containers", (codes "type", codes "container"))
    ∷ (codes "failed", (codes "status", codes "failed"))
    ∷ (codes "building", (codes "status", codes "building"))
    ∷ []

-- The errors of `Parse`, with the token as it was written or the field.
pub data ParseError : Type 0 where
  empty_field unknown_field no_value : Text → ParseError

abbrev pub values_at : Option (List Text) → List Text
values_at none = []
values_at (some vs) = vs

-- `q.fields[k]`
abbrev pub values_of : Dict (List Text) → Text → List Text
values_of fields k = values_at (get k fields)

unfoldable pub append_field : Query → Text → Text → Query
append_field q k v = record q { fields = put k (values_of q.fields k ++ (v ∷ [])) q.fields }

abbrev pub is_empty_text : Text → Bool
is_empty_text [] = true
is_empty_text (_ ∷ _) = false

-- A token with a colon.
unfoldable pub parse_field : Query → Text → Text → Text → Result ParseError Query
parse_field q raw field value =
    if is_empty_text field
    then err (empty_field raw)
    else (if not (elem field known_fields)
        then err (unknown_field field)
        else (if is_empty_text value
            then err (no_value field)
            else ok (append_field q field value)))

unfoldable pub parse_token : Query → Text → Result ParseError Query
parse_token q raw = elim (get (lower raw) view_shortcuts) [
  | some (field, value) ↦ ok (append_field q field value)
  | none ↦ elim (cut_byte b':' (lower raw)) [
    | some (field, value) ↦ parse_field q raw field value
    | none ↦ ok (record q { bare_terms = q.bare_terms ++ (lower raw ∷ []) })
  ]
]

unfoldable pub parse_tokens : Query → List Text → Result ParseError Query
parse_tokens q [] = ok q
parse_tokens q (raw ∷ tokens) = elim (parse_token q raw) [
  | err e ↦ err e
  | ok r ↦ parse_tokens r tokens
]

unfoldable pub parse : Text → Result ParseError Query
parse input = parse_tokens empty_query (split_fields input)

unfoldable pub is_empty_query : Query → Bool
is_empty_query q = length q.fields == 0 && length q.bare_terms == 0

-- `k + ":" + v` for each value.
unfoldable pub field_parts : Text → List Text → List Text
field_parts k [] = []
field_parts k (v ∷ vs) = (k ++ (b':' ∷ v)) ∷ field_parts k vs

unfoldable pub all_parts : Dict (List Text) → List Text → List Text
all_parts fields [] = []
all_parts fields (k ∷ ks) = field_parts k (values_of fields k) ++ all_parts fields ks

-- `String`
unfoldable pub render : Query → Text
render q =
    if is_empty_query q
    then []
    else join_fields (all_parts q.fields (sort_strings (keys_of_dict q.fields)) ++ q.bare_terms)

-- `InRoot`: the one value of the `in:` filter.
abbrev only_value : List Text → Text
only_value [] = []
only_value (v ∷ []) = v
only_value (_ ∷ _ ∷ _) = []

unfoldable pub in_root : Query → Text
in_root q = only_value (values_of q.fields (codes "in"))

unfoldable pub filters_status : Query → Bool
filters_status q = ltb 0 (length (values_of q.fields (codes "status")))

-- `strings.Contains`
unfoldable pub contains : Text → Text → Bool
contains [] needle = has_prefix [] needle
contains (c ∷ s) needle = has_prefix (c ∷ s) needle || contains s needle

unfoldable pub any_equals : Text → List Text → Bool
any_equals got [] = false
any_equals got (v ∷ vals) = if text_eq got v then true else any_equals got vals

-- The loop over the bare terms.
unfoldable pub contains_all : Text → List Text → Bool
contains_all name [] = true
contains_all name (term ∷ terms) =
    let rest = contains_all name terms in if not (contains name term) then false else rest

-- `got` of the fields but `in`; a nil unit is `none`, and an unknown field reads the empty text.
abbrev pub class_of : Option PackageUnit → Text
class_of none = []
class_of (some u) = lower u.class

abbrev pub or_project : Text → Text
or_project [] = codes "project"
or_project (c ∷ s) = c ∷ s

abbrev pub module_of : Option PackageUnit → Text
module_of none = codes "project"
module_of (some u) = or_project (lower u.home_module)

unfoldable pub field_value : Option PackageUnit → Text → Text → Text
field_value u status field =
    if text_eq field (codes "type")
    then class_of u
    else (if text_eq field (codes "module")
        then module_of u
        else (if text_eq field (codes "status") then lower status else []))

-- `inSet`: a nil set is `none`.
abbrev pub in_closure : Option (List Text) → Text → Bool
in_closure none name = false
in_closure (some names) name = elem name names

-- The loop over the fields.
unfoldable pub match_fields :
    Text → Option PackageUnit → Text → Option (List Text) → Dict (List Text) → Bool
match_fields name u status in_set [] = true
match_fields name u status in_set ((field, values) ∷ fields) =
    let rest = match_fields name u status in_set fields in
    if text_eq field (codes "in")
    then (if not (in_closure in_set name) then false else rest)
    else (if not (any_equals (field_value u status field) values) then false else rest)

unfoldable pub matches : Query → Text → Option PackageUnit → Text → Option (List Text) → Bool
matches q name u status in_set =
    if is_empty_query q
    then true
    else (if not (contains_all (lower name) q.bare_terms)
        then false
        else match_fields name u status in_set q.fields)
