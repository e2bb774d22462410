-- ===== src/Apkindex/Dep/Written.antt =====
-- What `ParseDep` reads from a token that is written by the format.
use yoe.Common.{
  ◌==◌, ==_iff, ok, ℕ, ◌≡◌, refl, sym, ap, ◌∙◌, ◌≢◌, ◌⊎◌, inl, inr, Bool, true, false, [], ◌∷◌,
  ◌++◌, append-nil, arith, Text, codes, has_prefix,
}
use yoe.Apkindex.Dep.Laws.{op_text, bang, render}
use yoe.Apkindex.Dep.Accept.{op_free, split_constraint-cons, is_op_byte}
use yoe.Apkindex.Dep.{
  Dep, DepKind, unknown, bare, so, cmd, pc, path, conflict, Op, no_op, eq, lt, le, gt, ge, tilde,
  kind_of, or_equal, split_constraint, build, parse_body, parse_dep,
}

-- The version that may follow an operator: none behind no operator, and none that starts with `=`
-- behind `<` or `>`, where it would read as another operator.
abbrev pub Fits : Op → Text → Type 0
Fits no_op v = v ≡ []
Fits lt v = has_prefix v (codes "=") ≡ false
Fits gt v = has_prefix v (codes "=") ≡ false
Fits _ v = Unit

or_equal-short :
    (short long : Op) (v : Text)
    → has_prefix v (codes "=") ≡ false
    → or_equal short long v ≡ ([], short, v)
unfolding or_equal has_prefix
or_equal-short short long [] h = refl
or_equal-short short long (c ∷ v) h = ground arith

split_constraint-op :
    (o : Op) (v : Text) → Fits o v → split_constraint (op_text o ++ v) ≡ ([], o, v)
unfolding split_constraint op_text or_equal
split_constraint-op no_op v h = rw h
split_constraint-op eq v h = refl
split_constraint-op lt v h = unfold has_prefix in or_equal-short lt le v h
split_constraint-op le v h = refl
split_constraint-op gt v h = or_equal-short gt ge v h
split_constraint-op ge v h = refl
split_constraint-op tilde v h = refl

-- A name without operator bytes, an operator and a version that may follow it are split again.
pub split_constraint-append :
    (n : Text) (o : Op) (v : Text)
    → op_free n ≡ true
    → Fits o v
    → split_constraint (n ++ (op_text o ++ v)) ≡ (n, o, v)
unfolding op_free
split_constraint-append [] o v p h = split_constraint-op o v h
split_constraint-append (c ∷ n) o v p h =
    let free : op_free n ≡ true = ground arith in
    let byte : is_op_byte c ≡ false = ground arith in
    rw (split_constraint-cons c _ byte) (rw (split_constraint-append n o v free h))

-- The kind that the prefix of a name says, where the name is no path.
abbrev pub HasKind : DepKind → Text → Type 0
HasKind so n = has_prefix n (codes "so:") ≡ true
HasKind cmd n = (has_prefix n (codes "so:") ≡ false) × (has_prefix n (codes "cmd:") ≡ true)
HasKind pc n =
    (has_prefix n (codes "so:") ≡ false)
    × (has_prefix n (codes "cmd:") ≡ false)
    × (has_prefix n (codes "pc:") ≡ true)
HasKind bare n =
    (has_prefix n (codes "so:") ≡ false)
    × (has_prefix n (codes "cmd:") ≡ false)
    × (has_prefix n (codes "pc:") ≡ false)
HasKind _ n = ⊥

kind_of-HasKind : (k : DepKind) (n : Text) → HasKind k n → kind_of n ≡ k
unfolding kind_of
kind_of-HasKind so n h = rw h
kind_of-HasKind cmd n (p, h) = rw p (rw h)
kind_of-HasKind pc n (p, q, h) = rw p (rw q (rw h))
kind_of-HasKind bare n (p, q, h) = rw p (rw q (rw h))
kind_of-HasKind unknown n h = absurd h
kind_of-HasKind path n h = absurd h
kind_of-HasKind conflict n h = absurd h

-- A dependency on a path: the whole token behind the sign is the path, without a constraint.
pub record IsPathWritten (d : Dep) : Type 0 where
  pub slash : has_prefix d.name (codes "/") ≡ true
  pub kinded : d.kind ≡ path
  pub free : d.op ≡ no_op
  pub bare_version : d.version ≡ []
  pub whole : d.raw ≡ render d

-- A dependency on a name: it is without operator bytes and starts with no `!` and no `/`, the kind is
-- the one that its prefix says, and the version may follow the operator.
pub record IsWritten (d : Dep) : Type 0 where
  pub named : d.name ≢ []
  pub no_bang : has_prefix d.name (codes "!") ≡ false
  pub no_slash : has_prefix d.name (codes "/") ≡ false
  pub free : op_free d.name ≡ true
  pub fits : Fits d.op d.version
  pub kinded : HasKind d.kind d.name
  pub whole : d.raw ≡ render d

parse_body-written :
    (raw : Text) (neg : Bool) (n : Text) (o : Op) (v : Text)
    → n ≢ []
    → has_prefix n (codes "/") ≡ false
    → op_free n ≡ true
    → Fits o v
    → parse_body raw neg (n ++ (op_text o ++ v)) ≡ build raw neg (n, o, v)
unfolding parse_body has_prefix
parse_body-written raw neg [] o v named slash free fits = absurd (named refl)
parse_body-written raw neg (c ∷ n) o v named slash free fits =
    let other : (c == b'/') ≡ false = ground arith in
    rw other (ap (build raw neg) (split_constraint-append (c ∷ n) o v free fits))

build-named :
    (raw : Text) (neg : Bool) (n : Text) (o : Op) (v : Text)
    → n ≢ []
    → build raw neg (n, o, v)
      ≡ ok (record { kind = kind_of n; name = n; version = v; op = o; conflict = neg; raw = raw })
unfolding build
build-named raw neg [] o v h = absurd (h refl)
build-named raw neg (c ∷ n) o v h = refl

parse_dep-sign :
    (neg : Bool) (s : Text)
    → s ≢ []
    → has_prefix s (codes "!") ≡ false
    → parse_dep (bang neg ++ s) ≡ parse_body (bang neg ++ s) neg s
unfolding parse_dep has_prefix
parse_dep-sign true s n h = refl
parse_dep-sign false [] n h = absurd (n refl)
parse_dep-sign false (c ∷ s) n h = ground arith

has_prefix-first :
    (b : ℕ) (s t : Text) → s ≢ [] → has_prefix (s ++ t) (b ∷ []) ≡ has_prefix s (b ∷ [])
unfolding has_prefix
has_prefix-first b [] t h = absurd (h refl)
has_prefix-first b (c ∷ s) t h = refl

append-ne_nil : (s t : Text) → s ≢ [] → s ++ t ≢ []
append-ne_nil [] t h = absurd (h refl)
append-ne_nil (c ∷ s) t h = ground arith

name-read_back : (d : Dep) → IsWritten d → parse_dep (render d) ≡ ok d
unfolding render
name-read_back d w =
    let rest = op_text d.op ++ d.version in
    let kinded = kind_of-HasKind d.kind d.name w.kinded in
    parse_dep-sign d.conflict (d.name ++ rest) (append-ne_nil d.name rest w.named)
      (has_prefix-first b'!' d.name rest w.named ∙ w.no_bang)
    ∙ parse_body-written _ d.conflict d.name d.op d.version w.named w.no_slash w.free w.fits
    ∙ build-named _ d.conflict d.name d.op d.version w.named
    ∙ ap ok (λ i. record {
      kind = kinded i;
      name = d.name;
      version = d.version;
      op = d.op;
      conflict = d.conflict;
      raw = sym w.whole i;
    })

parse_body-path :
    (raw : Text) (neg : Bool) (n : Text)
    → has_prefix n (codes "/") ≡ true
    → (has_prefix n (codes "!") ≡ false)
      × (n ≢ [])
      × (parse_body raw neg n
          ≡ ok (record {
            kind = path;
            name = n;
            version = [];
            op = no_op;
            conflict = neg;
            raw = raw;
          }))
unfolding parse_body has_prefix
parse_body-path raw neg [] h = cc
parse_body-path raw neg (c ∷ n) h =
    let e : (c == b'/') ≡ true = ground (arith, h) in
    let same : c ≡ b'/' = (==_iff c b'/').0 e in (rw same refl, ground arith, rw e refl)

path-read_back : (d : Dep) → IsPathWritten d → parse_dep (render d) ≡ ok d
unfolding render op_text
path-read_back d w =
    let (no_bang, named, body) = parse_body-path (render d) d.conflict d.name w.slash in
    let written : render d ≡ bang d.conflict ++ d.name =
      rw (w.free, w.bare_version, append-nil d.name) refl in
    written_eq written
    ∙ parse_dep-sign d.conflict d.name named no_bang
    ∙ ap (λ r. parse_body r d.conflict d.name) (sym written)
    ∙ body
    ∙ ap ok (λ i. record {
      kind = sym w.kinded i;
      name = d.name;
      version = sym w.bare_version i;
      op = sym w.free i;
      conflict = d.conflict;
      raw = sym w.whole i;
    })
  where
    written_eq : {t : Text} → render d ≡ t → parse_dep (render d) ≡ parse_dep t
    written_eq e = ap parse_dep e

-- A dependency that the format can write, on a name or on a path, is read back from its text:
-- `ParseDep` returns the same kind, name, version, operator and sign.
pub parse_dep-render_written :
    (d : Dep) → IsWritten d ⊎ IsPathWritten d → parse_dep (render d) ≡ ok d
parse_dep-render_written d (inl w) = name-read_back d w
parse_dep-render_written d (inr w) = path-read_back d w
