-- ===== src/Apkindex/Index/Tests.antt =====
-- Indexes of a few blocks, and the theorem at one of them.
use yoe.Common.{ok, err, ◌≡◌, refl, List, [], ◌∷◌, Text, codes, tokens_from, split_fields}
use yoe.Apkindex.Entry.{Entry, empty_entry}
use yoe.Apkindex.Index.{
  parse_index, read_lines, read_line, read_field, set_field, set_number, parse_int, split_tokens,
  end_block, close_block, decode_sum, decode_checksum, decode_quanta, drop_breaks, quantum,
  two_digits, three_digits, four_digits, base64_digit, IndexError,
}
use yoe.Apkindex.Version.{all_digits, digits_only, is_digit}

abbrev lines : List Text
lines =
    codes "P:musl"
    ∷ codes "S:42"
    ∷ codes "C:Q1AAAAAAAAAAAAAAAAAAAAAAAAAAE="
    ∷ codes "p:so:libc.so=1  cmd:ldd "
    ∷ []
    ∷ codes "?"
    ∷ []

abbrev musl : Entry
musl = record empty_entry {
  name = codes "musl";
  size = 42;
  checksum_text = codes "Q1AAAAAAAAAAAAAAAAAAAAAAAAAAE=";
  checksum = 0 ∷ 0 ∷ 0 ∷ 0 ∷ 0 ∷ 0 ∷ 0 ∷ 0 ∷ 0 ∷ 0 ∷ 0 ∷ 0 ∷ 0 ∷ 0 ∷ 0 ∷ 0 ∷ 0 ∷ 0 ∷ 0 ∷ 1 ∷ [];
  provides = codes "so:libc.so=1" ∷ codes "cmd:ldd" ∷ [];
}

reading : Unit {0}
unfolding parse_index read_lines read_line read_field set_field set_number parse_int split_tokens
    end_block close_block decode_sum decode_checksum decode_quanta drop_breaks quantum two_digits
    three_digits four_digits base64_digit split_fields tokens_from all_digits digits_only is_digit
reading = tt

parse_lines : parse_index lines ≡ ok (musl ∷ [])
unfolding reading
parse_lines = refl

-- A block without a name is an error.
parse_nameless : parse_index ([] ∷ codes "V:1" ∷ []) ≡ err (IndexError.no_name 2)
unfolding reading
parse_nameless = refl

-- The second block inherits nothing of the first one.
abbrev two_blocks : List Text
two_blocks =
    codes "P:musl" ∷ codes "V:1" ∷ codes "V:2" ∷ [] ∷ [] ∷ codes "P:sh" ∷ codes "D:musl  so:x" ∷ []

abbrev two_entries : List Entry
two_entries =
    record empty_entry { name = codes "musl"; version = codes "2" }
    ∷ record empty_entry { name = codes "sh"; deps = codes "musl" ∷ codes "so:x" ∷ [] }
    ∷ []
