-- ===== src/Dpkg/Deps.antt =====
-- internal/dpkg/deps.go: dependency lines. The grammar is that of the package `dependency`, whose
-- `Parse` is a parameter; a text is ASCII.
use yoe.Common.{
  leb, ◌==◌, if◌then◌else◌, Result, ◌>>=◌, ok, err, ℕ, Bool, ◌&&◌, ◌||◌, Option, none, some, List,
  [], ◌∷◌, ◌++◌, map, Text,
}

-- `Op` is a string that the parser hands on.
abbrev pub Op : Type 0
Op = Text

pub record Possibility : Type 0 where
  pub name : Text
  pub arch : Text
  pub version : Text
  pub op : Op
  pub raw : Text

pub record Relation : Type 0 where
  pub possibilities : List Possibility

pub record Dependency : Type 0 where
  pub relations : List Relation

-- What the source reads of a possibility that `dependency.Parse` returns: its name, and the
-- qualifier and the operator and number of the version where it has them.
pub record Parsed : Type 0 where
  pub name : Text
  pub arch : Option Text
  pub constraint : Option (Text × Text)

abbrev pub Grammar : Type 0
Grammar = Text → Option (List (List Parsed))

abbrev is_space : ℕ → Bool
is_space c = c == 32 || (leb 9 c && leb c 13)

unfoldable pub trim_left : Text → Text
trim_left [] = []
trim_left (c ∷ s) = let rest = trim_left s in if is_space c then rest else c ∷ s

-- A text without its trailing spaces.
unfoldable pub trim_right : Text → Text
trim_right [] = []
trim_right (c ∷ s) = elim (trim_right s) [
  | [] ↦ if is_space c then [] else c ∷ []
  | d ∷ t ↦ c ∷ d ∷ t
]

-- `strings.TrimSpace`
unfoldable pub trim_space : Text → Text
unfolding trim_left trim_right
trim_space s = trim_right (trim_left s)

unfoldable pub possibility_of : Parsed → Possibility
possibility_of p = record {
  name = p.name;
  raw = p.name;
  arch = elim p.arch [ none ↦ [] | some a ↦ a ];
  version = elim p.constraint [ none ↦ [] | some (_, number) ↦ number ];
  op = elim p.constraint [ none ↦ [] | some (operator, _) ↦ operator ];
}

unfoldable pub relation_of : List Parsed → Relation
relation_of ps = record { possibilities = map possibility_of ps }

-- The error holds the line that the grammar refuses.
unfoldable pub parse_dependency : Grammar → Text → Result Text Dependency
parse_dependency parse s = elim (trim_space s) [
  | [] ↦ ok (record { relations = [] })
  | c ∷ t ↦ elim (parse (c ∷ t)) [
    | none ↦ err (c ∷ t)
    | some parsed ↦ ok (record { relations = map relation_of parsed })
  ]
]

unfoldable pub all_possibilities : List Relation → List Possibility
all_possibilities [] = []
all_possibilities (r ∷ rs) = r.possibilities ++ all_possibilities rs

unfoldable pub parse_provides : Grammar → Text → Result Text (List Possibility)
parse_provides parse s = do dep ← parse_dependency parse s; ok (all_possibilities dep.relations)

abbrev pub head_name : List Possibility → List Text
head_name [] = []
head_name (p ∷ _) = p.name ∷ []

unfoldable pub flatten : List Relation → List Text
flatten [] = []
flatten (r ∷ rs) = head_name r.possibilities ++ flatten rs

unfoldable pub flatten_names : Dependency → List Text
flatten_names d = flatten d.relations
