-- ===== src/Dpkg/Materialize/Outcome.antt =====
-- What a unit that is materialized from an entry depends on, and when there is one.
use yoe.Common.{
  Option-cases, if_elim, some_inj, Result, Result-cases, ok, err, Distinct, elem-snoc,
  Distinct-snoc, ◌≡◌, refl, sym, ◌∙◌, subst, ◌↔◌, ◌⊎◌, inl, inr, true, false, some, List, [], ◌∷◌,
  arith, text_eq_iff, Text, text_eq, elem,
}
use mathlib.Core.List.{Memᴰ}
use mathlib.Core.List.Memᴰ
use yoe.Dpkg.Deps.{Grammar, Dependency, Relation, parse_dependency}
use yoe.Dpkg.Provides.{Entry}
use yoe.Dpkg.Materialize.{
  Providers, first_name, tokens_of, relation_tokens, bare_provides, add_dep, add_deps,
  dependency_line, materialize_unit, MaterializeError, nil_providers, bad_dependency, bad_provides,
}
use yoe.Starlark.Units.{PackageUnit}

-- A relation asks for `x`: its first name is provided by `x`, which is not the package itself.
pub record AsksFor (providers : Providers) (name : Text) (relations : List Relation) (x : Text)
    : Type 0 where
  pub relation : Relation
  pub listed : Memᴰ relation relations
  pub token : Text
  pub first : first_name relation.possibilities ≡ some token
  pub provided : providers token ≡ some x
  pub foreign : text_eq x name ≡ false

module _ (providers : Providers) (name : Text) where
  abbrev Meets : Text → Text → Type 0
  Meets t x = (providers t ≡ some x) × (text_eq x name ≡ false)

  elem-add_dep :
      (out : List Text) (t x : Text)
      → elem x (add_dep providers name out t) ≡ true ↔ ((elem x out ≡ true) ⊎ Meets t x)
  unfolding add_dep
  elem-add_dep out t x = elim (Option-cases (providers t)) [
    | inl e ↦ rw (e, add_dep) (ground arith)
    | inr (pkg, e) ↦ rw (e, add_dep) (ground (arith, elem-snoc x pkg out, text_eq_iff pkg x))
  ]

  add_dep-Distinct :
      (out : List Text) (t : Text) → Distinct out → Distinct (add_dep providers name out t)
  unfolding add_dep
  add_dep-Distinct out t h = elim (Option-cases (providers t)) [
    | inl e ↦ rw (e, add_dep) h
    | inr (pkg, e) ↦
        rw (e, add_dep)
          (if_elim Distinct (text_eq pkg name) (λ _. h)
            (λ _. if_elim Distinct (elem pkg out) (λ _. h) (λ n. Distinct-snoc pkg out h n)))
  ]

  add_deps-Distinct :
      (ts out : List Text) → Distinct out → Distinct (add_deps providers name out ts)
  unfolding add_deps
  add_deps-Distinct [] out h = h
  add_deps-Distinct (t ∷ ts) out h =
      add_deps-Distinct ts (add_dep providers name out t) (add_dep-Distinct out t h)

  skip :
      {r : Relation} {rs : List Relation} {x : Text}
      → AsksFor providers name rs x
      → AsksFor providers name (r ∷ rs) x
  skip a = record {
    relation = a.relation;
    listed = Memᴰ.tail a.listed;
    token = a.token;
    first = a.first;
    provided = a.provided;
    foreign = a.foreign;
  }

  -- What a relation in front adds to what the others ask for.
  cons_cases :
      (r : Relation) (rs : List Relation) (x : Text)
      → AsksFor providers name (r ∷ rs) x
      → ((t : Text) × (first_name r.possibilities ≡ some t) × Meets t x)
        ⊎ AsksFor providers name rs x
  cons_cases r rs x a = elim (Memᴰ.cases_cons a.listed) [
    | inl e ↦ inl (
      a.token,
      subst (λ (q : Relation). first_name q.possibilities ≡ some a.token) e a.first,
      (a.provided, a.foreign),
    )
    | inr l ↦ inr (record {
      relation = a.relation;
      listed = l;
      token = a.token;
      first = a.first;
      provided = a.provided;
      foreign = a.foreign;
    })
  ]

  elem-add_deps :
      (rs : List Relation) (out : List Text) (x : Text)
      → elem x (add_deps providers name out (tokens_of rs)) ≡ true
        ↔ ((elem x out ≡ true) ⊎ AsksFor providers name rs x)
  unfolding add_deps tokens_of
  elem-add_deps [] out x = (inl, λ m. elim m [ inl h ↦ h | inr a ↦ absurd (Memᴰ.not-nil a.listed) ])
  elem-add_deps (r ∷ rs) out x = elim (Option-cases (first_name r.possibilities)) [
    | inl e ↦
        let rest = elem-add_deps rs out x in
        rw (e, tokens_of)
          (
            λ m. elim (rest.0 m) [ inl h ↦ inl h | inr a ↦ inr (skip a) ],
            λ m. elim m [
              | inl h ↦ rest.1 (inl h)
              | inr a ↦ elim (cons_cases r rs x a) [ inl (t, f, _) ↦ cc | inr b ↦ rest.1 (inr b) ]
            ],
          )
    | inr (t, e) ↦
        let rest = elem-add_deps rs (add_dep providers name out t) x in
        let new = elem-add_dep out t x in
        rw (e, tokens_of)
          (
            λ m. elim (rest.0 m) [
              | inr a ↦ inr (skip a)
              | inl h ↦ elim (new.0 h) [
                | inl old ↦ inl old
                | inr (p, q) ↦ inr (record {
                  relation = r;
                  listed = Memᴰ.head refl;
                  token = t;
                  first = e;
                  provided = p;
                  foreign = q;
                })
              ]
            ],
            λ m. elim m [
              | inl h ↦ rest.1 (inl (new.1 (inl h)))
              | inr a ↦ elim (cons_cases r rs x a) [
                | inr b ↦ rest.1 (inr b)
                | inl (s, f, w) ↦
                    let same : s ≡ t = some_inj (sym f ∙ e) in
                    rest.1 (inl (new.1 (inr (subst (λ n. Meets n x) same w))))
              ]
            ],
          )
  ]

module _ (grammar : Grammar) (entry : Entry) (providers : Providers) (distro : Text) where
  -- What `MaterializeUnit` returns for an entry, by what its lines read as.
  abbrev pub IsMaterialized : Result MaterializeError PackageUnit → Type 0
  IsMaterialized (ok u) =
      (dep : Dependency) × (provs : List Text) × (parse_dependency grammar (dependency_line entry)
        ≡ ok dep)
      × (bare_provides grammar entry.provides ≡ ok provs)
      × (u.name ≡ entry.package_name)
      × (u.distro ≡ distro)
      × (u.provides ≡ provs)
      × Distinct u.runtime_deps
      × ((x : Text)
          → elem x u.runtime_deps ≡ true ↔ AsksFor providers entry.package_name dep.relations x)
  IsMaterialized (err nil_providers) = ⊥
  IsMaterialized (err (bad_dependency line)) =
      parse_dependency grammar (dependency_line entry) ≡ err line
  IsMaterialized (err (bad_provides line)) =
      ((dep : Dependency) × (parse_dependency grammar (dependency_line entry) ≡ ok dep))
      × (bare_provides grammar entry.provides ≡ err line)

  runtime_deps_iff :
      (rs : List Relation) (x : Text)
      → elem x (add_deps providers entry.package_name [] (tokens_of rs)) ≡ true
        ↔ AsksFor providers entry.package_name rs x
  unfolding elem
  runtime_deps_iff rs x =
      let m = elem-add_deps providers entry.package_name rs [] x in
      (λ e. elim (m.0 e) [ inl n ↦ cc | inr a ↦ a ], λ a. m.1 (inr a))

  -- A unit comes out of an entry exactly where its dependency line and its provides line are read; if
  -- one is not, the error is the one of that line, of the dependency line before the other. The unit has
  -- the package's name, the given distro and the names of the provides line. Its runtime dependencies
  -- are, each once, the packages that provide the first name of a relation of the dependency line,
  -- without the package itself; what nothing provides is left out. The providers are given.
  pub materialize_unit-AsksFor :
      (module_name : Text)
      → IsMaterialized (materialize_unit grammar entry (some providers) module_name distro)
  unfolding materialize_unit relation_tokens
  materialize_unit-AsksFor module_name =
      elim (Result-cases (parse_dependency grammar (dependency_line entry))) [
        | inr (line, h) ↦ rw (h, relation_tokens, materialize_unit) h
        | inl (dep, h) ↦ elim (Result-cases (bare_provides grammar entry.provides)) [
          | inr (line, k) ↦ rw (h, relation_tokens, materialize_unit, k) ((dep, h), k)
          | inl (provs, k) ↦
              rw (h, relation_tokens, materialize_unit, k)
                (
                  dep,
                  provs,
                  h,
                  k,
                  refl,
                  refl,
                  refl,
                  add_deps-Distinct providers entry.package_name (tokens_of dep.relations) [] tt,
                  runtime_deps_iff dep.relations,
                )
        ]
      ]
