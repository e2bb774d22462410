-- ===== src/Apkindex/Dep.antt =====
-- internal/apkindex/deps.go: dependency tokens of an APKINDEX, and how one is parsed.
pub mod Laws
pub mod Accept
pub mod Written
use yoe.Common.{
  ◌==◌, if◌then◌else◌, Result, ok, err, ℕ, ◌+◌, Bool, true, false, List, [], ◌∷◌, Text, codes,
  has_prefix,
}

-- `DepKind`; `bare` is DepKindName.
pub data DepKind : Type 0 where
  unknown bare so cmd pc path conflict : DepKind

-- `Op`; `no_op` is OpNone.
pub data Op : Type 0 where
  no_op eq lt le gt ge tilde : Op

pub record Dep : Type 0 where
  pub kind : DepKind
  pub name : Text
  pub version : Text
  pub op : Op
  pub conflict : Bool
  pub raw : Text

-- The errors of `ParseDep`, with the token that its message echoes.
pub data DepError : Type 0 where
  empty_token : DepError
  empty_after_bang empty_name : Text → DepError

-- What stands behind `<` or `>`: the longer operator if a `=` follows.
unfoldable pub or_equal : Op → Op → Text → Text × Op × Text
or_equal short long [] = ([], short, [])
or_equal short long (c ∷ s) = if c == b'=' then ([], long, s) else ([], short, c ∷ s)

unfoldable pub split_constraint : Text → Text × Op × Text
split_constraint [] = ([], no_op, [])
split_constraint (c ∷ s) =
    if c == b'='
    then ([], eq, s)
    else if c == b'~'
    then ([], tilde, s)
    else if c == b'<'
    then or_equal lt le s
    else if c == b'>'
    then or_equal gt ge s
    else (let (name, op, version) = split_constraint s in (c ∷ name, op, version))

-- The `switch` on the prefix of the name.
unfoldable pub kind_of : Text → DepKind
kind_of name =
    if has_prefix name (codes "so:")
    then so
    else if has_prefix name (codes "cmd:")
    then cmd
    else if has_prefix name (codes "pc:")
    then pc
    else bare

-- The end of `ParseDep`: the parts of the token become a dependency, unless the name is empty.
unfoldable pub build : Text → Bool → Text × Op × Text → Result DepError Dep
build raw neg ([], op, version) = err (empty_name raw)
build raw neg (c ∷ cs, op, version) = ok (record {
  kind = kind_of (c ∷ cs);
  name = c ∷ cs;
  version = version;
  op = op;
  conflict = neg;
  raw = raw;
})

-- `ParseDep` from the test for a path on: `s` is what follows the `!`, if there was one.
unfoldable pub parse_body : Text → Bool → Text → Result DepError Dep
unfolding build
parse_body raw neg [] = err (empty_after_bang raw)
parse_body raw neg (c ∷ s) =
    if c == b'/'
    then ok
        (record { kind = path; name = c ∷ s; version = []; op = no_op; conflict = neg; raw = raw })
    else build raw neg (split_constraint (c ∷ s))

unfoldable pub parse_dep : Text → Result DepError Dep
unfolding parse_body
parse_dep [] = err empty_token
parse_dep (c ∷ s) =
    if c == b'!' then parse_body (c ∷ s) true s else parse_body (c ∷ s) false (c ∷ s)

-- `ParseDeps`: the index of the failing token comes with its error.
unfoldable pub parse_deps_from : ℕ → List Text → Result (ℕ × DepError) (List Dep)
unfolding parse_dep
parse_deps_from i [] = ok []
parse_deps_from i (t ∷ ts) =
    let rest = parse_deps_from (i + 1) ts in
    elim (parse_dep t) [
      | err e ↦ err (i, e)
      | ok d ↦ elim rest [ err e ↦ err e | ok ds ↦ ok (d ∷ ds) ]
    ]

unfoldable pub parse_deps : List Text → Result (ℕ × DepError) (List Dep)
unfolding parse_deps_from
parse_deps tokens = parse_deps_from 0 tokens
