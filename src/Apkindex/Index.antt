-- ===== src/Apkindex/Index.antt =====
-- internal/apkindex/parse.go: `ParseIndex`, over the lines that the scanner returns. Texts are ASCII.
pub mod Setting
pub mod Fields
pub mod Open
pub mod Blocks
pub mod Tests
use yoe.Common.{
  leb, ◌==◌, if◌then◌else◌, length, Result, ◌>>=◌, ◌>>◌, ok, err, ℕ, ◌+◌, ◌-◌, ◌*◌, ◌/◌, ◌%◌, ◌^◌,
  Bool, true, false, ◌&&◌, ◌||◌, Option, none, some, List, [], ◌∷◌, ◌++◌, Text, split_fields,
}
use yoe.Apkindex.Entry.{Entry, empty_entry}
use yoe.Apkindex.Version.{all_digits, int_mod}

-- `base64.StdEncoding.DecodeString`: the value of a digit.
unfoldable pub base64_digit : ℕ → Option ℕ
base64_digit c =
    if leb b'A' c && leb c b'Z'
    then some (c - b'A')
    else if leb b'a' c && leb c b'z'
    then some (c - b'a' + 26)
    else if leb b'0' c && leb c b'9'
    then some (c - b'0' + 52)
    else if c == b'+'
    then some 62
    else if c == b'/'
    then some 63
    else none

abbrev first_byte : ℕ → ℕ → ℕ
first_byte a b = a * 4 + b / 16

abbrev second_byte : ℕ → ℕ → ℕ
second_byte b c = b % 16 * 16 + c / 4

abbrev third_byte : ℕ → ℕ → ℕ
third_byte c d = c % 4 * 64 + d

unfoldable pub two_digits : Option ℕ → Option ℕ → Option Text
two_digits (some x) (some y) = some (first_byte x y ∷ [])
two_digits _ _ = none

unfoldable pub three_digits : Option ℕ → Option ℕ → Option ℕ → Option Text
three_digits (some x) (some y) (some z) = some (first_byte x y ∷ second_byte y z ∷ [])
three_digits _ _ _ = none

unfoldable pub four_digits : Option ℕ → Option ℕ → Option ℕ → Option ℕ → Option Text
four_digits (some x) (some y) (some z) (some w) =
    some (first_byte x y ∷ second_byte y z ∷ third_byte z w ∷ [])
four_digits _ _ _ _ = none

-- A quantum; only the last one may end in padding.
unfoldable pub quantum : Bool → ℕ → ℕ → ℕ → ℕ → Option Text
unfolding two_digits three_digits four_digits base64_digit
quantum is_last a b c d =
    if is_last && d == b'='
    then if c == b'='
      then two_digits (base64_digit a) (base64_digit b)
      else three_digits (base64_digit a) (base64_digit b) (base64_digit c)
    else four_digits (base64_digit a) (base64_digit b) (base64_digit c) (base64_digit d)

abbrev is_empty : Text → Bool
is_empty [] = true
is_empty (_ ∷ _) = false

abbrev join : Option Text → Option Text → Option Text
join (some s) (some t) = some (s ++ t)
join _ _ = none

unfoldable pub decode_quanta : Text → Option Text
unfolding quantum
decode_quanta [] = some []
decode_quanta (a ∷ b ∷ c ∷ d ∷ rest) = join (quantum (is_empty rest) a b c d) (decode_quanta rest)
decode_quanta _ = none

-- The decoder leaves line breaks out.
unfoldable pub drop_breaks : Text → Text
drop_breaks [] = []
drop_breaks (c ∷ s) = let rest = drop_breaks s in if c == 10 || c == 13 then rest else c ∷ rest

-- `DecodeChecksum`, with none for its errors.
unfoldable pub decode_checksum : Text → Option Text
unfolding decode_quanta drop_breaks
decode_checksum (q ∷ one ∷ s) =
    if q == b'Q' && one == b'1'
    then elim (decode_quanta (drop_breaks s)) [
      | none ↦ none
      | some raw ↦ if length raw == 20 then some raw else none
    ]
    else none
decode_checksum _ = none

-- `strconv.ParseInt` in base 10: the word of the number, if it is in range.
abbrev value_of : ℕ → Text → ℕ
value_of n [] = n
value_of n (c ∷ s) = value_of (n * 10 + (c - b'0')) s

abbrev up_to : ℕ → Text → Option ℕ
up_to bound s =
    if all_digits s then if leb (value_of 0 s) bound then some (value_of 0 s) else none else none

unfoldable pub parse_int : Text → Option ℕ
parse_int [] = none
parse_int (c ∷ s) =
    if c == b'-'
    then elim (up_to (2 ^ 63) s) [ none ↦ none | some n ↦ some ((int_mod - n) % int_mod) ]
    else if c == b'+'
    then up_to (2 ^ 63 - 1) s
    else up_to (2 ^ 63 - 1) (c ∷ s)

-- `splitTokens`: what stands between blanks, without empty tokens.
unfoldable pub split_tokens : Text → List Text
split_tokens s = split_fields s

pub data IndexError : Type 0 where
  -- the line at which the block begins
  no_name : ℕ → IndexError
  bad_checksum : ℕ → Text → IndexError
  -- the line and the key
  bad_number : ℕ → ℕ → IndexError

unfoldable pub set_number : ℕ → ℕ → Text → (ℕ → Entry) → Result IndexError Entry
set_number line key val update = elim (parse_int val) [
  | none ↦ err (bad_number line key)
  | some n ↦ ok (update n)
]

unfoldable pub set_field : Entry → ℕ → Text → ℕ → Result IndexError Entry
set_field cur key val line =
    if key == b'P'
    then ok (record cur { name = val })
    else if key == b'V'
    then ok (record cur { version = val })
    else if key == b'T'
    then ok (record cur { description = val })
    else if key == b'U'
    then ok (record cur { url = val })
    else if key == b'L'
    then ok (record cur { license = val })
    else if key == b'A'
    then ok (record cur { arch = val })
    else if key == b'S'
    then set_number line key val (λ n. record cur { size = n })
    else if key == b'I'
    then set_number line key val (λ n. record cur { installed_size = n })
    else if key == b'o'
    then ok (record cur { origin = val })
    else if key == b'm'
    then ok (record cur { maintainer = val })
    else if key == b't'
    then set_number line key val (λ n. record cur { build_time = n })
    else if key == b'c'
    then ok (record cur { commit = val })
    else if key == b'C'
    then ok (record cur { checksum_text = val })
    else if key == b'D'
    then ok (record cur { deps = split_tokens val })
    else if key == b'p'
    then ok (record cur { provides = split_tokens val })
    else if key == b'r'
    then ok (record cur { replaces = split_tokens val })
    else if key == b'i'
    then ok (record cur { install_if = split_tokens val })
    else ok cur

pub record IndexState : Type 0 where
  pub entries : List Entry
  pub cur : Entry
  pub cur_has : Bool
  pub block_line : ℕ

abbrev pub add_entry : IndexState → Entry → IndexState
add_entry s e = record {
  entries = s.entries ++ (e ∷ []);
  cur = empty_entry;
  cur_has = false;
  block_line = s.block_line;
}

-- `cur.Checksum = raw`, if the block has the text of a checksum.
unfoldable pub decode_sum : ℕ → Entry → Text → Result IndexError Entry
decode_sum line e [] = ok e
decode_sum line e (c ∷ t) = elim (decode_checksum (c ∷ t)) [
  | none ↦ err (bad_checksum line e.name)
  | some raw ↦ ok (record e { checksum = raw })
]

-- `flush` of a block of that name.
unfoldable pub close_block : IndexState → Text → Result IndexError IndexState
close_block s [] = err (no_name s.block_line)
close_block s (_ ∷ _) = elim (decode_sum s.block_line s.cur s.cur.checksum_text) [
  | err e ↦ err e
  | ok e ↦ ok (add_entry s e)
]

-- `flush`
unfoldable pub end_block : IndexState → Result IndexError IndexState
end_block s = if s.cur_has then close_block s s.cur.name else ok s

-- A line of the form `K:value`, read at the number `line`.
unfoldable pub read_field : IndexState → ℕ → ℕ → Text → Result IndexError IndexState
read_field s line key val = elim (set_field s.cur key val line) [
  | err e ↦ err e
  | ok e ↦ ok (record {
    entries = s.entries;
    cur = e;
    cur_has = true;
    block_line = if s.cur_has then s.block_line else line;
  })
]

unfoldable pub read_line : IndexState → ℕ → Text → Result IndexError IndexState
read_line s line [] = end_block s
read_line s line (k ∷ []) = ok s
read_line s line (k ∷ c ∷ val) = if c == b':' then read_field s line k val else ok s

unfoldable pub read_lines : IndexState → ℕ → List Text → Result IndexError IndexState
read_lines s line [] = ok s
read_lines s line (l ∷ ls) = elim (read_line s line l) [
  | err e ↦ err e
  | ok t ↦ read_lines t (line + 1) ls
]

abbrev pub first_state : IndexState
first_state = record { entries = []; cur = empty_entry; cur_has = false; block_line = 0 }

unfoldable pub parse_index : List Text → Result IndexError (List Entry)
parse_index lines = do s ← read_lines first_state 1 lines; t ← end_block s; ok t.entries
