-- ===== src/Apkindex/Index/Open.antt =====
-- What a line does to an open block, and what the end of the block makes of it.
use yoe.Common.{
  ◌==◌, ==_iff, Option-cases, if_elim, Result-cases, ℕ, ◌≡◌, refl, sym, ap, ◌∙◌, subst, ◌≢◌, ◌⊎◌,
  inl, inr, true, false, some, List, [], ◌∷◌, ◌++◌, arith, Text, tokens_from, split_fields,
}
use yoe.Apkindex.Entry.{Entry, empty_entry}
use yoe.Apkindex.Index.{
  decode_checksum, set_field, IndexState, add_entry, decode_sum, close_block, end_block, read_field,
  read_line,
}
use yoe.Apkindex.Index.Setting.{IsSetBy, set_field-IsSetBy, IsSetBy-checksum, OnOk, on_ok}
use yoe.Apkindex.Index.Fields.{
  is_field, has_field, IsRead, IsRead-set, IsRead-other, has_field-snoc, last_from,
}

-- The checksum of an entry is what its text stands for, and empty where it has none.
abbrev pub HasChecksum : Entry → Type 0
HasChecksum e =
    (e.checksum_text ≡ []) × (e.checksum ≡ [])
    ⊎ (e.checksum_text ≢ []) × (decode_checksum e.checksum_text ≡ some e.checksum)

-- The entry of a block: what the block's lines say, with a name and a checksum.
abbrev pub IsEntryOf : List Text → Entry → Type 0
IsEntryOf b e = IsRead b e × (e.name ≢ []) × HasChecksum e

-- The state behind the lines of an open block.
pub record IsOpen (b : List Text) (s : IndexState) : Type 0 where
  pub read : IsRead b s.cur
  pub has : s.cur_has ≡ has_field b
  pub blank : s.cur.checksum ≡ []
  pub fresh : s.cur_has ≡ false → s.cur ≡ empty_entry

empty-IsRead : IsRead [] empty_entry
unfolding split_fields tokens_from last_from
empty-IsRead = record {
  name = refl;
  version = refl;
  description = refl;
  license = refl;
  checksum_text = refl;
  deps = refl;
  provides = refl;
  replaces = refl;
}

pub empty-IsOpen : (s : IndexState) → s.cur ≡ empty_entry → s.cur_has ≡ false → IsOpen [] s
unfolding has_field
empty-IsOpen s c h = record {
  read = subst (IsRead []) (sym c) empty-IsRead;
  has = h;
  blank = ap (λ (e : Entry). e.checksum) c;
  fresh = λ _. c;
}

-- What the end of a block leaves: no entry more, or the one of the block.
abbrev pub IsEnded : List Text → IndexState → IndexState → Type 0
IsEnded b s t =
    IsOpen [] t
    × ((has_field b ≡ false) × (t.entries ≡ s.entries)
        ⊎ (e : Entry) × (has_field b ≡ true) × IsEntryOf b e × (t.entries ≡ s.entries ++ e ∷ []))

decode_sum-IsRead :
    (line : ℕ) (b : List Text) (e : Entry) (t : Text)
    → t ≡ e.checksum_text
    → e.checksum ≡ []
    → IsRead b e
    → OnOk (λ (f : Entry). IsRead b f × HasChecksum f × (f.name ≡ e.name)) (decode_sum line e t)
unfolding decode_sum
decode_sum-IsRead line b e [] p h r = (r, inl (sym p, h), refl)
decode_sum-IsRead line b e (c ∷ t) p h r = elim (Option-cases (decode_checksum (c ∷ t))) [
  | inl q ↦ rw (q, decode_sum) tt
  | inr (raw, q) ↦
      rw (q, decode_sum)
        (
          record {
            name = r.name;
            version = r.version;
            description = r.description;
            license = r.license;
            checksum_text = r.checksum_text;
            deps = r.deps;
            provides = r.provides;
            replaces = r.replaces;
          },
          inr (λ z. cc (p ∙ z), subst (λ w. decode_checksum w ≡ some raw) p q),
          refl,
        )
]

close_block-IsEnded :
    (b : List Text) (s : IndexState) (n : Text)
    → n ≡ s.cur.name
    → IsOpen b s
    → has_field b ≡ true
    → OnOk (IsEnded b s) (close_block s n)
unfolding close_block
close_block-IsEnded b s [] p i h = tt
close_block-IsEnded b s (c ∷ n) p i h =
    elim (Result-cases (decode_sum s.block_line s.cur s.cur.checksum_text)) [
      | inr (e, r) ↦ rw (r, close_block) tt
      | inl (e, r) ↦
          let (read, sum, same) =
            on_ok (λ (f : Entry). IsRead b f × HasChecksum f × (f.name ≡ s.cur.name)) _ e
              (decode_sum-IsRead s.block_line b s.cur s.cur.checksum_text refl i.blank i.read) r in
          rw (r, close_block)
            (
              empty-IsOpen (add_entry s e) refl refl,
              inr (e, h, (read, λ z. cc (p ∙ (sym same ∙ z)), sum), refl),
            )
    ]

pub end_block-IsEnded :
    (b : List Text) (s : IndexState) → IsOpen b s → OnOk (IsEnded b s) (end_block s)
unfolding end_block
end_block-IsEnded b s i =
    if_elim (OnOk (IsEnded b s)) s.cur_has
      (λ h. close_block-IsEnded b s s.cur.name refl i (sym i.has ∙ h))
      (λ h. (empty-IsOpen s (i.fresh h) h, inl (sym i.has ∙ h, refl)))

pub read_line-IsEnded :
    (b : List Text) (s : IndexState) (line : ℕ)
    → IsOpen b s
    → OnOk (IsEnded b s) (read_line s line [])
unfolding read_line
read_line-IsEnded b s line i = end_block-IsEnded b s i

-- A line of a block keeps the entries and opens the block further.
abbrev pub IsLonger : List Text → IndexState → IndexState → Type 0
IsLonger b s t = IsOpen b t × (t.entries ≡ s.entries)

read_field-IsOpen :
    (b : List Text) (s : IndexState) (line key : ℕ) (val : Text)
    → IsOpen b s
    → OnOk (IsLonger (b ++ (key ∷ b':' ∷ val) ∷ []) s) (read_field s line key val)
unfolding read_field is_field
read_field-IsOpen b s line key val i = elim (Result-cases (set_field s.cur key val line)) [
  | inr (e, r) ↦ rw (r, read_field) tt
  | inl (e, r) ↦
      let set = on_ok (IsSetBy key val s.cur) _ e (set_field-IsSetBy s.cur key val line) r in
      rw (r, read_field)
        (
          record {
            read = IsRead-set b key val s.cur e i.read set;
            has = sym (has_field-snoc b (key ∷ b':' ∷ val) ∙ ground arith);
            blank = IsSetBy-checksum key val s.cur e set ∙ i.blank;
            fresh = λ z. cc;
          },
          refl,
        )
]

other-IsOpen :
    (b : List Text) (s : IndexState) (l : Text)
    → is_field l ≡ false
    → IsOpen b s
    → IsLonger (b ++ l ∷ []) s s
other-IsOpen b s l h i = (
  record {
    read = IsRead-other b l s.cur h i.read;
    has = i.has ∙ sym (has_field-snoc b l ∙ rw h (ground arith));
    blank = i.blank;
    fresh = i.fresh;
  },
  refl,
)

pub read_line-IsOpen :
    (b : List Text) (s : IndexState) (line : ℕ) (c : ℕ) (l : Text)
    → IsOpen b s
    → OnOk (IsLonger (b ++ (c ∷ l) ∷ []) s) (read_line s line (c ∷ l))
unfolding read_line is_field
read_line-IsOpen b s line k [] i = other-IsOpen b s (k ∷ []) refl i
read_line-IsOpen b s line k (c ∷ val) i =
    if_elim (OnOk (IsLonger (b ++ (k ∷ c ∷ val) ∷ []) s)) (c == b':')
      (λ h.
        subst (λ n. OnOk (IsLonger (b ++ (k ∷ n ∷ val) ∷ []) s) (read_field s line k val))
          (sym ((==_iff c b':').0 h)) (read_field-IsOpen b s line k val i))
      (λ h. other-IsOpen b s (k ∷ c ∷ val) h i)
