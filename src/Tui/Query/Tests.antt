-- ===== src/Tui/Query/Tests.antt =====
-- Queries, and the theorems at these queries.
use yoe.Common.{
  ok, err, compare_text, insert_sorted, sort_strings, ◌≡◌, refl, ◌↔◌, true, false, none, some, [],
  ◌∷◌, Text, codes, text_eq, has_prefix, cut_byte, get, put, elem, keys_of_dict, tokens_from,
  split_fields, join_fields,
}
use yoe.Starlark.Units.{PackageUnit, empty_unit}
use yoe.Tui.Query.{
  Query, unknown_field, values_of, parse, parse_tokens, parse_token, parse_field, append_field,
  lower, render, is_empty_query, field_parts, all_parts, matches, contains, contains_all,
  any_equals, field_value, match_fields, in_root, filters_status,
}
use yoe.Tui.Query.Print.{parse-render}
use yoe.Tui.Query.Filter.{Satisfies, matches-Satisfies}

reading : Unit {0}
unfolding parse parse_tokens parse_token parse_field append_field lower render is_empty_query
    field_parts all_parts split_fields tokens_from join_fields get put elem text_eq cut_byte
    sort_strings insert_sorted compare_text keys_of_dict matches contains contains_all any_equals
    field_value match_fields in_root filters_status has_prefix
reading = tt

abbrev query : Query
query = record {
  fields =
      (codes "type", codes "image" ∷ []) ∷ (codes "module", codes "core" ∷ codes "bsp" ∷ []) ∷ [];
  bare_terms = codes "dev" ∷ [];
}

parse-query : parse (codes "Images  module:Core dev module:bsp") ≡ ok query
unfolding reading
parse-query = refl

render-query : render query ≡ codes "module:core module:bsp type:image dev"
unfolding reading
render-query = refl

parse_unknown : parse (codes "size:3") ≡ err (unknown_field (codes "size"))
unfolding reading
parse_unknown = refl

root_of : in_root query ≡ []
unfolding reading
root_of = refl

status_of : filters_status query ≡ false
unfolding reading
status_of = refl

parse-render_example :
    (r : Query) × (parse (render query) ≡ ok r)
    × ((k : Text) → values_of r.fields k ≡ values_of query.fields k)
    × (r.bare_terms ≡ query.bare_terms)
parse-render_example = parse-render (codes "Images  module:Core dev module:bsp") query parse-query

abbrev image : PackageUnit
image = record empty_unit {
  name = codes "Dev-Image";
  class = codes "image";
  home_module = codes "bsp";
}

matches-image : matches query (codes "Dev-Image") (some image) [] none ≡ true
unfolding reading
matches-image = refl

matches-Satisfies_example :
    matches query (codes "Dev-Image") (some image) [] none ≡ true
    ↔ Satisfies (codes "Dev-Image") (some image) [] none query
matches-Satisfies_example =
    matches-Satisfies (codes "Dev-Image") (some image) [] none
      (codes "Images  module:Core dev module:bsp") query parse-query
