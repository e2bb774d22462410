-- ===== src/Build/Schedule/Rebuilt.antt =====
-- Which units a build builds does not depend on the order in which the workers move.
use yoe.Common.{
  Bool-cases, elem-snoc, ◌≡◌, subst, ◌↔◌, inl, inr, true, false, some, List, [], ◌∷◌, ◌++◌, arith,
  text_eq_refl, eq_of_text_eq, text_eq_iff, Text, text_eq, get, elem,
}
use yoe.Common.Kahn.Ordered.{Ordered}
use yoe.Resolve.Dag.{deps_of}
use yoe.Build.Plan.{reuse_cache, plan_of}
use yoe.Build.Schedule.{Job, finished, BuildState, any_rebuilt}
use yoe.Build.Schedule.Tracks.{IsJob, waits, elem-within}
use yoe.Build.Schedule.Safety.{Reached, worker-deps_finished, finished-must_build, rebuilt-finished}

-- The unit, or one that it depends on within the build, has no usable cache.
pub data Rebuilds (job : Job) : Text → Type 0 where
  fresh :
      {x : Text}
      → elem x job.order ≡ true
      → reuse_cache (plan_of job.plans x) ≡ false
      → Rebuilds job x
  spreads :
      {x d : Text}
      → elem x job.order ≡ true
      → elem d (deps_of job.nodes x) ≡ true
      → elem d job.order ≡ true
      → Rebuilds job d
      → Rebuilds job x

any_rebuilt-some :
    (rebuilt ds : List Text)
    → any_rebuilt rebuilt ds ≡ true
    → (d : Text) × (elem d ds ≡ true) × (elem d rebuilt ≡ true)
unfolding any_rebuilt elem
any_rebuilt-some rebuilt [] h = absurd (cc)
any_rebuilt-some rebuilt (d ∷ ds) h = elim (Bool-cases (elem d rebuilt)) [
  | inl e ↦ (d, ground (arith, text_eq_refl d), e)
  | inr e ↦
      let (y, m, n) = any_rebuilt-some rebuilt ds (ground (arith, h, e)) in (y, ground arith, n)
]

any_rebuilt-of_elem :
    (rebuilt ds : List Text) (d : Text)
    → elem d ds ≡ true
    → elem d rebuilt ≡ true
    → any_rebuilt rebuilt ds ≡ true
unfolding any_rebuilt elem
any_rebuilt-of_elem rebuilt [] d m h = cc
any_rebuilt-of_elem rebuilt (e ∷ ds) d m h =
    ground (arith, any_rebuilt-of_elem rebuilt ds d, text_eq_iff e d)

module _ (job : Job) (t : BuildState) (g : IsJob job) (r : Reached job t) where
  Rebuilds-rebuilt :
      {x : Text} → Rebuilds job x → get x t.workers ≡ some finished → elem x t.rebuilt ≡ true
  Rebuilds-rebuilt {x} (fresh m e) at = ground (arith, finished-must_build job t g r x at, e)
  Rebuilds-rebuilt {x} (spreads {d = d} m k n b) at =
      let (_, done) = worker-deps_finished job t g r x d finished at k n in
      let built : elem d t.rebuilt ≡ true = Rebuilds-rebuilt b done in
      ground (
        arith,
        finished-must_build job t g r x at,
        any_rebuilt-of_elem t.rebuilt (deps_of job.nodes x) d k built,
      )

  rebuilt-here :
      (x : Text)
      → ((d : Text)
          → elem d (deps_of job.nodes x) ≡ true
          → elem d job.order ≡ true
          → elem d t.rebuilt ≡ true
          → Rebuilds job d)
      → elem x t.rebuilt ≡ true
      → Rebuilds job x
  rebuilt-here x ih m =
      let (at, k) = rebuilt-finished job t g r x m in
      elim (Bool-cases (reuse_cache (plan_of job.plans x))) [
        | inr e ↦ fresh k e
        | inl e ↦
            let (d, dep, built) =
              any_rebuilt-some t.rebuilt (deps_of job.nodes x)
                (ground (arith, finished-must_build job t g r x at, e, m)) in
            let n = (rebuilt-finished job t g r d built).1 in spreads k dep n (ih d dep n built)
      ]

  rebuilt-Rebuilds :
      (xs seen : List Text)
      → Ordered (waits job) seen xs
      → ((x : Text) → elem x seen ≡ true → elem x t.rebuilt ≡ true → Rebuilds job x)
      → (x : Text) → elem x xs ≡ true
      → elem x t.rebuilt ≡ true
      → Rebuilds job x
  unfolding elem
  rebuilt-Rebuilds [] seen o before x m b = absurd (cc)
  rebuilt-Rebuilds (z ∷ xs) seen o before x m b =
      let here : elem z t.rebuilt ≡ true → Rebuilds job z = rebuilt-here z (λ d dep n built.
        before d (o.0 d (rw (elem-within job d (deps_of job.nodes z) n) dep)) built) in
      elim (Bool-cases (text_eq z x)) [
        | inl e ↦ subst (Rebuilds job) (eq_of_text_eq z x e) (here (rw (eq_of_text_eq z x e) b))
        | inr e ↦
            rebuilt-Rebuilds xs (seen ++ (z ∷ [])) o.1
              (λ y n. elim (Bool-cases (text_eq z y)) [
                | inl f ↦ λ c.
                    subst (Rebuilds job) (eq_of_text_eq z y f) (here (rw (eq_of_text_eq z y f) c))
                | inr f ↦ λ c. before y (ground (arith, elem-snoc y z seen, f, n)) c
              ])
              x (rw e at m) b
      ]

  -- In every state that a job with a build order can reach, whichever worker moved when, a unit that is finished was built exactly
  -- if it, or a unit of the build that it depends on, however far, cannot be served from the cache.
  pub finished-Rebuilds :
      (x : Text) → get x t.workers ≡ some finished → elem x t.rebuilt ≡ true ↔ Rebuilds job x
  unfolding elem
  finished-Rebuilds x at = (
    λ m.
        rebuilt-Rebuilds job.order [] g.ordered (λ y n. absurd (cc)) x
          (rebuilt-finished job t g r x m).1 m,
    λ b. Rebuilds-rebuilt b at,
  )
