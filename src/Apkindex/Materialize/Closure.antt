-- ===== src/Apkindex/Materialize/Closure.antt =====
-- The runtime dependencies of a materialized unit are exactly what its tokens ask for.
use yoe.Common.{
  if_elim, Result, Result-cases, ok, err, Distinct, elem-snoc, Distinct-snoc, ◌≡◌, refl, ap, ◌∙◌,
  subst, ◌≢◌, ◌↔◌, ◌⊎◌, inl, inr, true, false, ◌&&◌, Option, none, some, List, [], ◌∷◌, arith,
  text_eq_iff, Text, text_eq, elem,
}
use mathlib.Core.List.{Memᴰ}
use mathlib.Core.List.Memᴰ
use yoe.Apkindex.Dep.{Dep, DepError, parse_dep}
use yoe.Apkindex.Materialize.{
  Providers, MaterializeError, bad_dep, unresolved, is_path, is_bare, wanted_dep, wanted, add_new,
  resolve_from,
}

-- A token asks for a package: it is no conflict and no path, it does not name the entry itself,
-- and the providers answer its name with another package.
pub record AsksFor (name : Text) (providers : Providers) (raw pkg : Text) : Type 0 where
  pub dep : Dep
  pub parsed : parse_dep raw ≡ ok dep
  pub positive : dep.conflict ≡ false
  pub no_path : is_path dep.kind ≡ false
  pub other_name : (is_bare dep.kind && text_eq dep.name name) ≡ false
  pub provided : providers dep.name ≡ some pkg
  pub other_package : pkg ≢ name

-- A token fails: it is malformed, or it is a dependency that nothing provides.
pub data FailsWith (name : Text) (providers : Providers) (raw : Text)
    : MaterializeError → Type 0 where
  malformed : (e : DepError) → parse_dep raw ≡ err e → FailsWith name providers raw (bad_dep raw e)
  missing :
      (d : Dep)
      → parse_dep raw ≡ ok d
      → d.conflict ≡ false
      → is_path d.kind ≡ false
      → providers d.name ≡ none
      → FailsWith name providers raw (unresolved raw d.name)

module _ (name : Text) (providers : Providers) where
  wanted_dep-some :
      (raw pkg : Text) (d : Dep)
      → parse_dep raw ≡ ok d
      → wanted_dep name providers raw d ≡ ok (some pkg)
      → AsksFor name providers raw pkg
  unfolding wanted_dep
  wanted_dep-some raw pkg d p h = record {
    dep = d;
    parsed = p;
    positive = ground arith;
    no_path = ground arith;
    other_name = ground arith;
    provided = ground arith;
    other_package = ground (arith, text_eq_iff pkg name);
  }

  wanted-some :
      (raw pkg : Text) → wanted name providers raw ≡ ok (some pkg) → AsksFor name providers raw pkg
  unfolding wanted
  wanted-some raw pkg h = elim (Result-cases (parse_dep raw)) [
    | inl (d, p) ↦ wanted_dep-some raw pkg d p (rw (p, wanted) at h)
    | inr (e, p) ↦ cc (rw (p, wanted) at h)
  ]

  wanted-of_AsksFor :
      (raw pkg : Text) → AsksFor name providers raw pkg → wanted name providers raw ≡ ok (some pkg)
  unfolding wanted wanted_dep
  wanted-of_AsksFor raw pkg a =
      rw (a.parsed, wanted)
        (rw a.positive (
          rw a.no_path (
            rw a.other_name (
              rw (a.provided, wanted_dep)
                (ground (arith, a.other_package, text_eq_iff pkg name))))))

  wanted_dep-err :
      (raw : Text) (e : MaterializeError) (d : Dep)
      → parse_dep raw ≡ ok d
      → wanted_dep name providers raw d ≡ err e
      → FailsWith name providers raw e
  unfolding wanted_dep
  wanted_dep-err raw e d p h =
      let same : unresolved raw d.name ≡ e = ground arith in
      subst (FailsWith name providers raw) same
        (missing d p (ground arith) (ground arith) (ground arith))

  wanted-err :
      (raw : Text) (e : MaterializeError)
      → wanted name providers raw ≡ err e
      → FailsWith name providers raw e
  unfolding wanted
  wanted-err raw e h = elim (Result-cases (parse_dep raw)) [
    | inl (d, p) ↦ wanted_dep-err raw e d p (rw (p, wanted) at h)
    | inr (f, p) ↦
        let h' : err (bad_dep raw f) ≡ err e = rw (p, wanted) at h in
        let same : bad_dep raw f ≡ e = cc in
        subst (FailsWith name providers raw) same (malformed f p)
  ]

  mem-add_new :
      (out : List Text) (o : Option Text) (x : Text)
      → elem x (add_new out o) ≡ true ↔ ((elem x out ≡ true) ⊎ (o ≡ some x))
  unfolding add_new
  mem-add_new out none x = (inl, λ h. ground arith)
  mem-add_new out (some pkg) x = ground (arith, elem-snoc x pkg out, text_eq_iff pkg x)

  add_new-Distinct : (out : List Text) (o : Option Text) → Distinct out → Distinct (add_new out o)
  unfolding add_new
  add_new-Distinct out none h = h
  add_new-Distinct out (some pkg) h =
      if_elim Distinct (elem pkg out) (λ _. h) (λ n. Distinct-snoc pkg out h n)

  -- The packages that a list of tokens asks for.
  pub record AskedBy (raws : List Text) (pkg : Text) : Type 0 where
    pub token : Text
    pub listed : Memᴰ token raws
    pub asks : AsksFor name providers token pkg

  AskedBy-tail :
      (raw : Text) (raws : List Text) (x : Text) → AskedBy raws x → AskedBy (raw ∷ raws) x
  AskedBy-tail raw raws x a = record { token = a.token; listed = Memᴰ.tail a.listed; asks = a.asks }

  pub resolve_from-mem :
      (raws out res : List Text)
      → resolve_from name providers out raws ≡ ok res
      → (x : Text) → elem x res ≡ true ↔ ((elem x out ≡ true) ⊎ AskedBy raws x)
  unfolding resolve_from
  resolve_from-mem [] out res h x =
      let same : out ≡ res = cc in
      (
        λ m. inl (rw same m),
        λ m. elim m [ inl old ↦ rw (← same) old | inr a ↦ absurd (Memᴰ.not-nil a.listed) ],
      )
  resolve_from-mem (raw ∷ raws) out res h x = elim (Result-cases (wanted name providers raw)) [
    | inr (e, w) ↦ cc (rw (w, resolve_from) at h)
    | inl (o, w) ↦
        let rest = resolve_from-mem raws (add_new out o) res (rw (w, resolve_from) at h) x in
        let new = mem-add_new out o x in
        (
          λ m. elim (rest.0 m) [
            | inr a ↦ inr (AskedBy-tail raw raws x a)
            | inl n ↦ elim (new.0 n) [
              | inl old ↦ inl old
              | inr q ↦ inr (record {
                token = raw;
                listed = Memᴰ.head refl;
                asks = wanted-some raw x (w ∙ ap ok q);
              })
            ]
          ],
          λ m. elim m [
            | inl old ↦ rest.1 (inl (new.1 (inl old)))
            | inr a ↦ elim (Memᴰ.cases_cons a.listed) [
              | inr later ↦ rest.1 (inr (record { token = a.token; listed = later; asks = a.asks }))
              | inl here ↦
                  let asks : AsksFor name providers raw x =
                    subst (λ t. AsksFor name providers t x) here a.asks in
                  let found : o ≡ some x = cc (w, wanted-of_AsksFor raw x asks) in
                  rest.1 (inl (new.1 (inr found)))
            ]
          ],
        )
  ]

  pub resolve_from-Distinct :
      (raws out res : List Text)
      → resolve_from name providers out raws ≡ ok res
      → Distinct out
      → Distinct res
  unfolding resolve_from
  resolve_from-Distinct [] out res h d = let same : out ≡ res = cc in rw (← same) d
  resolve_from-Distinct (raw ∷ raws) out res h d = elim (Result-cases (wanted name providers raw)) [
    | inr (e, w) ↦ cc (rw (w, resolve_from) at h)
    | inl (o, w) ↦
        resolve_from-Distinct raws (add_new out o) res (rw (w, resolve_from) at h)
          (add_new-Distinct out o d)
  ]

  pub resolve_from-err :
      (raws out : List Text) (e : MaterializeError)
      → resolve_from name providers out raws ≡ err e
      → (raw : Text) × Memᴰ raw raws × FailsWith name providers raw e
  unfolding resolve_from
  resolve_from-err [] out e h = cc
  resolve_from-err (raw ∷ raws) out e h = elim (Result-cases (wanted name providers raw)) [
    | inr (f, w) ↦
        let h' : ◌≡◌ {A = Result MaterializeError (List Text)} (err f) (err e) =
          rw (w, resolve_from) at h in
        let same : f ≡ e = cc in
        (raw, Memᴰ.head refl, subst (FailsWith name providers raw) same (wanted-err raw f w))
    | inl (o, w) ↦
        let (t, m, fails) = resolve_from-err raws (add_new out o) e (rw (w, resolve_from) at h) in
        (t, Memᴰ.tail m, fails)
  ]
