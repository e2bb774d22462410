-- ===== src/Apkindex/Dep/Accept.antt =====
-- Which tokens `ParseDep` accepts.
use yoe.Common.{
  ◌==◌, if◌then◌else◌, ==_iff, Bool-cases, Result, ok, err, ℕ, ◌≡◌, refl, ap, inl, inr, Bool, true,
  false, not, ◌&&◌, ◌||◌, [], ◌∷◌, arith, Text,
}
use yoe.Apkindex.Dep.{Op, lt, le, gt, ge, or_equal, split_constraint, build, parse_body, parse_dep}

-- The bytes at which `splitConstraint` stops.
unfoldable pub is_op_byte : ℕ → Bool
is_op_byte c = c == b'=' || (c == b'~' || (c == b'<' || c == b'>'))

unfoldable pub op_free : Text → Bool
op_free [] = true
op_free (c ∷ s) = not (is_op_byte c) && op_free s

pub split_constraint-cons :
    (c : ℕ) (s : Text)
    → is_op_byte c ≡ false
    → split_constraint (c ∷ s)
      ≡ (c ∷ (split_constraint s).0, (split_constraint s).1, (split_constraint s).2)
unfolding split_constraint is_op_byte
split_constraint-cons c s h = ground arith

-- The tokens that `ParseDep` refuses: the empty one, a lone `!`, and one whose name, behind the `!`
-- if there is one, would start with an operator.
unfoldable pub bad_name : Text → Bool
bad_name [] = true
bad_name (c ∷ s) = is_op_byte c

unfoldable pub is_malformed : Text → Bool
unfolding bad_name
is_malformed [] = true
is_malformed (c ∷ s) = if c == b'!' then bad_name s else is_op_byte c

unfoldable pub accepted : {E A : Type 0} → Result E A → Bool
accepted (ok _) = true
accepted (err _) = false

or_equal-name : (short long : Op) (s : Text) → (or_equal short long s).0 ≡ []
unfolding or_equal
or_equal-name short long [] = refl
or_equal-name short long (c ∷ s) = ground arith

split_constraint-bad : (c : ℕ) (s : Text) → is_op_byte c ≡ true → (split_constraint (c ∷ s)).0 ≡ []
unfolding split_constraint is_op_byte
split_constraint-bad c s h = ground (arith, or_equal-name lt le s, or_equal-name gt ge s)

build-accepted :
    (raw : Text) (neg : Bool) (parts : Text × Op × Text) (c : ℕ) (s : Text)
    → (parts.0 ≡ [] → accepted (build raw neg parts) ≡ false)
      × (parts.0 ≡ c ∷ s → accepted (build raw neg parts) ≡ true)
unfolding accepted build
build-accepted raw neg ([], o, v) c s = (λ _. refl, λ e. cc)
build-accepted raw neg (b ∷ n, o, v) c s = (λ e. cc, λ _. refl)

slash-is_op_byte : is_op_byte b'/' ≡ false
unfolding is_op_byte
slash-is_op_byte = refl

parse_body-accepted :
    (raw : Text) (neg : Bool) (s : Text) → accepted (parse_body raw neg s) ≡ not (bad_name s)
unfolding parse_body accepted bad_name
parse_body-accepted raw neg [] = refl
parse_body-accepted raw neg (c ∷ s) = elim (Bool-cases (c == b'/')) [
  | inl e ↦ rw e (rw ((==_iff c b'/').0 e) (rw slash-is_op_byte))
  | inr e ↦ rw e (elim (Bool-cases (is_op_byte c)) [
    | inl o ↦ rw o ((build-accepted raw neg _ c s).0 (split_constraint-bad c s o))
    | inr o ↦ rw o (
        (build-accepted raw neg _ c (split_constraint s).0).1
          (ap (λ (t : Text × Op × Text). t.0) (split_constraint-cons c s o)))
  ])
]

-- `ParseDep` accepts exactly the tokens that are not malformed.
pub parse_dep-accepted : (s : Text) → accepted (parse_dep s) ≡ not (is_malformed s)
unfolding parse_dep accepted is_malformed
parse_dep-accepted [] = refl
parse_dep-accepted (c ∷ s) = elim (Bool-cases (c == b'!')) [
  | inl e ↦ rw e (parse_body-accepted (c ∷ s) true s)
  | inr e ↦ rw e (parse_body-accepted (c ∷ s) false (c ∷ s))
]
