-- ===== src/Apkindex/Dep/Laws.antt =====
-- What `ParseDep` keeps of a token.
use yoe.Common.{
  ◌==◌, ==_iff, Bool-cases, if_elim, ok, ℕ, ◌≡◌, refl, sym, ap, ◌∙◌, subst, ◌≢◌, inl, inr, Bool,
  true, false, [], ◌∷◌, ◌++◌, append-nil, append_assoc, arith, Text, codes,
}
use yoe.Apkindex.Dep.{
  Dep, Op, no_op, eq, lt, le, gt, ge, tilde, or_equal, split_constraint, build, parse_body,
  parse_dep,
}

-- How an operator is written.
unfoldable pub op_text : Op → Text
op_text no_op = []
op_text eq = codes "="
op_text lt = codes "<"
op_text le = codes "<="
op_text gt = codes ">"
op_text ge = codes ">="
op_text tilde = codes "~"

abbrev pub bang : Bool → Text
bang true = codes "!"
bang false = []

-- The token that a parsed dependency stands for.
unfoldable pub render : Dep → Text
render d = bang d.conflict ++ (d.name ++ (op_text d.op ++ d.version))

-- The parts of a split token, put together again.
unfoldable pub join : Text × Op × Text → Text
join (name, op, version) = name ++ (op_text op ++ version)

or_equal-join :
    (short long : Op) (s : Text)
    → op_text long ≡ op_text short ++ codes "="
    → join (or_equal short long s) ≡ op_text short ++ s
unfolding or_equal join
or_equal-join short long [] h = refl
or_equal-join short long (c ∷ s) h = elim (Bool-cases (c == b'=')) [
  | inl e ↦ rw e (rw h (rw append_assoc (rw ((==_iff c b'=').0 e))))
  | inr e ↦ rw e
]

-- Splitting a token into name, operator and version loses nothing of it.
pub split_constraint-join : (s : Text) → join (split_constraint s) ≡ s
unfolding split_constraint join op_text
split_constraint-join [] = refl
split_constraint-join (c ∷ s) =
    let P = λ (t : Text × Op × Text). join t ≡ c ∷ s in
    let first = λ (k : ℕ) (o : Op) (e : (c == k) ≡ true) (h : join ([], o, s) ≡ k ∷ s).
      subst (λ d. join ([], o, s) ≡ d ∷ s) (sym ((==_iff c k).0 e)) h in
    if_elim P (c == b'=') (λ e. first b'=' eq e refl)
      (λ _.
        if_elim P (c == b'~') (λ e. first b'~' tilde e refl)
          (λ _.
            if_elim P (c == b'<') (λ e. or_equal-join lt le s refl ∙ rw ((==_iff c b'<').0 e))
              (λ _.
                if_elim P (c == b'>') (λ e. or_equal-join gt ge s refl ∙ rw ((==_iff c b'>').0 e))
                  (λ _. ap (λ t. c ∷ t) (split_constraint-join s)))))

-- What a dependency that was parsed from `raw` keeps of it.
record IsFrom (raw : Text) (neg : Bool) (s : Text) (d : Dep) : Type 0 where
  whole : d.raw ≡ raw
  sign : d.conflict ≡ neg
  parts : d.name ++ (op_text d.op ++ d.version) ≡ s
  named : d.name ≢ []

build-IsFrom :
    (raw : Text) (neg : Bool) (parts : Text × Op × Text) (d : Dep)
    → build raw neg parts ≡ ok d
    → IsFrom raw neg (join parts) d
unfolding build join
build-IsFrom raw neg ([], op, version) d h = cc
build-IsFrom raw neg (c ∷ cs, op, version) d h = record {
  whole = ground arith;
  sign = ground arith;
  parts = ground arith;
  named = ground arith;
}

parse_body-IsFrom :
    (raw : Text) (neg : Bool) (s : Text) (d : Dep)
    → parse_body raw neg s ≡ ok d
    → IsFrom raw neg s d
unfolding parse_body op_text
parse_body-IsFrom raw neg [] d h = cc
parse_body-IsFrom raw neg (c ∷ s) d h =
    if_elim (λ r. r ≡ ok d → IsFrom raw neg (c ∷ s) d) (c == b'/')
      (λ _ e. record {
        whole = ground arith;
        sign = ground arith;
        parts = ground (arith, append-nil (c ∷ s));
        named = ground arith;
      })
      (λ _ e.
        subst (λ t. IsFrom raw neg t d) (split_constraint-join (c ∷ s))
          (build-IsFrom raw neg (split_constraint (c ∷ s)) d e))
      h

-- A token that `ParseDep` accepts is kept whole: sign, name, operator and version, written one
-- after the other, give back the token, `Raw` is the token, and the name is not empty.
pub parse_dep-render :
    (s : Text) (d : Dep) → parse_dep s ≡ ok d → (render d ≡ s) × (d.raw ≡ s) × (d.name ≢ [])
unfolding parse_dep render
parse_dep-render [] d h = cc
parse_dep-render (c ∷ s) d h =
    if_elim (λ r. r ≡ ok d → (render d ≡ c ∷ s) × (d.raw ≡ c ∷ s) × (d.name ≢ [])) (c == b'!')
      (λ b e.
        let f = parse_body-IsFrom (c ∷ s) true s d e in
        (
          rw (f.sign, f.parts) (ap (λ (k : ℕ). k ∷ s) (sym ((==_iff c b'!').0 b))),
          f.whole,
          f.named,
        ))
      (λ _ e.
        let f = parse_body-IsFrom (c ∷ s) false (c ∷ s) d e in
        (rw (f.sign, f.parts) refl, f.whole, f.named))
      h
