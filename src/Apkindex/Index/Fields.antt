-- ===== src/Apkindex/Index/Fields.antt =====
-- What the lines of a block say of an entry, and that `ParseIndex` sets the fields by them.
use yoe.Common.{
  ◌==◌, if◌then◌else◌, Bool-cases, ℕ, ◌≡◌, refl, sym, ap, ◌∙◌, inl, inr, Bool, false, ◌&&◌, ◌||◌,
  List, [], ◌∷◌, ◌++◌, arith, Text, split_fields,
}
use yoe.Apkindex.Entry.{Entry}
use yoe.Apkindex.Index.Setting.{IsSetBy}

-- `K:value`
unfoldable pub is_field : Text → Bool
is_field (_ ∷ c ∷ _) = c == b':'
is_field _ = false

unfoldable pub has_field : List Text → Bool
has_field [] = false
has_field (l ∷ ls) = is_field l || has_field ls

-- The value of a line, if the line is of this key.
unfoldable pub line_value : ℕ → Text → Text → Text
line_value key old (k ∷ c ∷ val) = if c == b':' && k == key then val else old
line_value key old _ = old

-- The value of the last line of this key.
unfoldable pub last_from : ℕ → Text → List Text → Text
last_from key old [] = old
last_from key old (l ∷ ls) = last_from key (line_value key old l) ls

abbrev pub last_value : ℕ → List Text → Text
last_value key block = last_from key [] block

-- An entry has what the last line of each key says.
pub record IsRead (block : List Text) (e : Entry) : Type 0 where
  pub name : e.name ≡ last_value b'P' block
  pub version : e.version ≡ last_value b'V' block
  pub description : e.description ≡ last_value b'T' block
  pub license : e.license ≡ last_value b'L' block
  pub checksum_text : e.checksum_text ≡ last_value b'C' block
  pub deps : e.deps ≡ split_fields (last_value b'D' block)
  pub provides : e.provides ≡ split_fields (last_value b'p' block)
  pub replaces : e.replaces ≡ split_fields (last_value b'r' block)

pub last_from-snoc :
    (key : ℕ) (old : Text) (b : List Text) (l : Text)
    → last_from key old (b ++ l ∷ []) ≡ line_value key (last_from key old b) l
unfolding last_from
last_from-snoc key old [] l = refl
last_from-snoc key old (m ∷ b) l = last_from-snoc key (line_value key old m) b l

pub has_field-snoc :
    (b : List Text) (l : Text) → has_field (b ++ l ∷ []) ≡ (has_field b || is_field l)
unfolding has_field
has_field-snoc [] l = ground arith
has_field-snoc (m ∷ b) l = ground (arith, has_field-snoc b l)

line_value-other : (key : ℕ) (old l : Text) → is_field l ≡ false → line_value key old l ≡ old
unfolding line_value is_field
line_value-other key old [] h = refl
line_value-other key old (k ∷ []) h = refl
line_value-other key old (k ∷ c ∷ val) h = rw h refl

last_value-other :
    (key : ℕ) (b : List Text) (l : Text)
    → is_field l ≡ false
    → last_value key b ≡ last_value key (b ++ l ∷ [])
last_value-other key b l h =
    sym (last_from-snoc key [] b l ∙ line_value-other key (last_value key b) l h)

-- A line that is no field changes nothing of what the block says.
pub IsRead-other :
    (b : List Text) (l : Text) (e : Entry)
    → is_field l ≡ false
    → IsRead b e
    → IsRead (b ++ l ∷ []) e
IsRead-other b l e h r = record {
  name = r.name ∙ last_value-other b'P' b l h;
  version = r.version ∙ last_value-other b'V' b l h;
  description = r.description ∙ last_value-other b'T' b l h;
  license = r.license ∙ last_value-other b'L' b l h;
  checksum_text = r.checksum_text ∙ last_value-other b'C' b l h;
  deps = r.deps ∙ ap split_fields (last_value-other b'D' b l h);
  provides = r.provides ∙ ap split_fields (last_value-other b'p' b l h);
  replaces = r.replaces ∙ ap split_fields (last_value-other b'r' b l h);
}

text_step :
    (key k : ℕ) (b : List Text) (val x old : Text)
    → x ≡ (if k == key then val else old)
    → old ≡ last_value key b
    → x ≡ last_value key (b ++ (k ∷ b':' ∷ val) ∷ [])
unfolding line_value
text_step key k b val x old h g = h ∙ rw (g, last_from-snoc key [] b (k ∷ b':' ∷ val)) refl

list_step :
    (key k : ℕ) (b : List Text) (val : Text) (x old : List Text)
    → x ≡ (if k == key then split_fields val else old)
    → old ≡ split_fields (last_value key b)
    → x ≡ split_fields (last_value key (b ++ (k ∷ b':' ∷ val) ∷ []))
unfolding line_value
list_step key k b val x old h g = elim (Bool-cases (k == key)) [
  | inl e ↦ rw e at h ∙ rw (last_from-snoc key [] b (k ∷ b':' ∷ val), e) refl
  | inr e ↦ rw e at h ∙ rw (g, last_from-snoc key [] b (k ∷ b':' ∷ val), e) refl
]

-- A field more of the block, and its value set.
pub IsRead-set :
    (b : List Text) (k : ℕ) (val : Text) (cur e : Entry)
    → IsRead b cur
    → IsSetBy k val cur e
    → IsRead (b ++ (k ∷ b':' ∷ val) ∷ []) e
IsRead-set b k val cur e r (n, v, t, l, c, d, p, q, _) = record {
  name = text_step b'P' k b val e.name cur.name n r.name;
  version = text_step b'V' k b val e.version cur.version v r.version;
  description = text_step b'T' k b val e.description cur.description t r.description;
  license = text_step b'L' k b val e.license cur.license l r.license;
  checksum_text = text_step b'C' k b val e.checksum_text cur.checksum_text c r.checksum_text;
  deps = list_step b'D' k b val e.deps cur.deps d r.deps;
  provides = list_step b'p' k b val e.provides cur.provides p r.provides;
  replaces = list_step b'r' k b val e.replaces cur.replaces q r.replaces;
}
