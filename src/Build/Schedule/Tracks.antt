-- ===== src/Build/Schedule/Tracks.antt =====
-- What the counts and the workers say of the units that are finished.
use yoe.Common.{
  ltb, ◌==◌, if◌then◌else◌, Bool-cases, Distinct, elem-snoc, Distinct-snoc, ℤ, is_zero, pos, count,
  elem-count, ◌≡◌, refl, sym, ap, ◌∙◌, subst, inl, inr, Bool, true, false, not, ◌&&◌, Option, some,
  List, [], ◌∷◌, ◌++◌, arith, eq_of_text_eq, text_eq_iff, Text, text_eq, get-put, Dict, get, put,
  elem,
}
use yoe.Common.Kahn.{degree, count_down}
use yoe.Common.Kahn.Released.{
  left, left-snoc, left-zero, is_zero-pos, Waiting, Waiting-down, Waiting-next,
}
use yoe.Common.Kahn.Ordered.{Ordered, Ordered-snoc}
use yoe.Resolve.Dag.{deps_of, rdeps_of}
use yoe.Build.Order.{within}
use yoe.Build.Schedule.{
  Job, Phase, waiting, finished, is_started, launch, count_within, first_indeg, release_rdeps,
}
use yoe.Build.Schedule.Slots.{get-launch}

abbrev pub is_finished : Option Phase → Bool
is_finished (some finished) = true
is_finished _ = false

module _ (job : Job) where
  -- The dependencies of a unit that the build takes up.
  abbrev pub waits : Text → List Text
  waits x = within job.order (deps_of job.nodes x)

  abbrev pub in_order : Text → Bool
  in_order x = elem x job.order

  abbrev pub Counts : List Text → List Text → Dict ℤ → Type 0
  Counts = Waiting in_order waits (rdeps_of job.nodes)

  -- A build order whose graph has every reverse dependency as often as the dependency.
  pub record IsJob : Type 0 where
    pub distinct : Distinct job.order
    pub ordered : Ordered waits [] job.order
    pub mirrored : (x y : Text) → count x (rdeps_of job.nodes y) ≡ count y (deps_of job.nodes x)

  -- `done` are the units that are finished, in the order in which they finished.
  pub record Tracks (done : List Text) (indeg : Dict ℤ) (workers : Dict Phase) (stop : Bool)
      : Type 0 where
    pub counts : Counts [] done indeg
    pub ready :
        (x : Text)
        → is_started (get x workers) ≡ true
        → (elem x job.order ≡ true) × (left (waits x) done ≡ 0)
    pub launched :
        stop ≡ false
        → (x : Text) → elem x job.order ≡ true
        → left (waits x) done ≡ 0
        → is_started (get x workers) ≡ true
    pub marked : (x : Text) → is_finished (get x workers) ≡ elem x done
    pub distinct : Distinct done
    pub ordered : Ordered waits [] done

  left_none : (ds : List Text) → left (within job.order ds) [] ≡ count_within job.order ds
  unfolding within count_within left elem
  left_none [] = refl
  left_none (d ∷ ds) = ground (arith, left_none ds)

  degree-first_indeg :
      (names : List Text) (x : Text)
      → elem x names ≡ true
      → degree (first_indeg job names) x ≡ pos (count_within job.order (deps_of job.nodes x))
  unfolding first_indeg get elem
  degree-first_indeg [] x h = cc
  degree-first_indeg (name ∷ names) x h = elim (Bool-cases (text_eq name x)) [
    | inl e ↦ rw e (rw (eq_of_text_eq name x e) refl)
    | inr e ↦ rw e (degree-first_indeg names x (rw e at h))
  ]

  pub first-Tracks : Tracks [] (first_indeg job job.order) [] true
  unfolding get elem count
  first-Tracks = record {
    counts = λ x m.
        degree-first_indeg job.order x m ∙ ap pos (omega (arith, left_none (deps_of job.nodes x)));
    ready = λ x h. cc;
    launched = λ h. cc;
    marked = λ x. refl;
    distinct = tt;
    ordered = tt;
  }

  module _ (done : List Text) (indeg : Dict ℤ) (workers : Dict Phase) where
    -- A worker goes on, short of its end.
    pub Tracks-put :
        (stop after : Bool) (name : Text) (p q : Phase)
        → Tracks done indeg workers stop
        → get name workers ≡ some p
        → is_finished (some p) ≡ false
        → is_finished (some q) ≡ false
        → (after ≡ false → stop ≡ false)
        → Tracks done indeg (put name q workers) after
    Tracks-put stop after name p q t at np nq later = record {
      counts = t.counts;
      ready = λ x h. t.ready x (same_started x ∙ h);
      launched = λ h x m z. sym (same_started x) ∙ t.launched (later h) x m z;
      marked = λ x. same_marked x ∙ t.marked x;
      distinct = t.distinct;
      ordered = t.ordered;
    }
      where
        same_started :
            (x : Text) → is_started (get x workers) ≡ is_started (get x (put name q workers))
        same_started x = rw (get-put name x q workers) (elim (Bool-cases (text_eq name x)) [
          | inl e ↦ rw e (rw (← eq_of_text_eq name x e, at) refl)
          | inr e ↦ rw e refl
        ])

        same_marked :
            (x : Text) → is_finished (get x (put name q workers)) ≡ is_finished (get x workers)
        same_marked x = rw (get-put name x q workers) (elim (Bool-cases (text_eq name x)) [
          | inl e ↦ rw e (rw (← eq_of_text_eq name x e, at) (nq ∙ sym np))
          | inr e ↦ rw e refl
        ])

    -- `launchReady`
    pub Tracks-launch :
        (stop : Bool)
        → Tracks done indeg workers true
        → Tracks done indeg (launch indeg workers job.order) stop
    unfolding count
    Tracks-launch stop t = record {
      counts = t.counts;
      ready = λ x h. ready_now x (rw (get-launch indeg job.order workers x) at h);
      launched =
          λ h x m z. rw (get-launch indeg job.order workers x) (ground (arith, m, free x m, z));
      marked = λ x. rw (get-launch indeg job.order workers x) (ground (arith, t.marked x));
      distinct = t.distinct;
      ordered = t.ordered;
    }
      where
        free :
            (x : Text)
            → elem x job.order ≡ true
            → is_zero (degree indeg x) ≡ (left (waits x) done == 0)
        free x m = ap is_zero (t.counts x m) ∙ is_zero-pos _ ∙ ap (λ n. n == 0) (omega arith)

        ready_now :
            (x : Text)
            → is_started (
                if not (is_started (get x workers)) && elem x job.order && is_zero (degree indeg x)
                then some waiting
                else get x workers)
              ≡ true
            → (elem x job.order ≡ true) × (left (waits x) done ≡ 0)
        ready_now x h = ground (arith, h, t.ready x, free x)

  release_rdeps-Counts :
      (rs done : List Text) (indeg : Dict ℤ)
      → Counts rs done indeg
      → Counts [] done (release_rdeps job.order indeg rs)
  unfolding release_rdeps count
  release_rdeps-Counts [] done indeg c = c
  release_rdeps-Counts (r ∷ rs) done indeg c = elim (Bool-cases (elem r job.order)) [
    | inl m ↦ rw m (
        release_rdeps-Counts rs done (count_down indeg r)
          (Waiting-down in_order waits (rdeps_of job.nodes) r rs done indeg c))
    | inr m ↦ rw m (
        release_rdeps-Counts rs done indeg
          (λ x k. c x k ∙ ap pos (ground (arith, text_eq_iff r x))))
  ]

  count-within :
      (x : Text) (ds : List Text)
      → elem x job.order ≡ true
      → count x (within job.order ds) ≡ count x ds
  unfolding within count
  count-within x [] m = refl
  count-within x (d ∷ ds) m = ground (arith, count-within x ds m, text_eq_iff d x)

  pub elem-within :
      (x : Text) (ds : List Text)
      → elem x job.order ≡ true
      → elem x (within job.order ds) ≡ elem x ds
  elem-within x ds m =
      elem-count x (within job.order ds) ∙ ap (ltb 0) (count-within x ds m) ∙ sym (elem-count x ds)

  -- The counts once a unit is finished and what waited for it is released.
  pub finish-Counts :
      (name : Text) (done : List Text) (indeg : Dict ℤ)
      → IsJob
      → elem name job.order ≡ true
      → elem name done ≡ false
      → Counts [] done indeg
      → Counts [] (done ++ (name ∷ [])) (release_rdeps job.order indeg (rdeps_of job.nodes name))
  finish-Counts name done indeg g m fresh c =
      release_rdeps-Counts (rdeps_of job.nodes name) (done ++ (name ∷ [])) indeg (
        Waiting-next in_order waits (rdeps_of job.nodes) name done indeg
          (λ y k. g.mirrored y name ∙ sym (count-within name (deps_of job.nodes y) m)) fresh c)

  -- The last section, before `launchReady`.
  pub Tracks-finish :
      (done : List Text) (indeg : Dict ℤ) (workers : Dict Phase) (stop : Bool) (name : Text)
      (p : Phase)
      → IsJob
      → Tracks done indeg workers stop
      → get name workers ≡ some p
      → is_finished (some p) ≡ false
      → Tracks
          (done ++ (name ∷ []))
          (release_rdeps job.order indeg (rdeps_of job.nodes name))
          (put name finished workers)
          true
  Tracks-finish done indeg workers stop name p g t at np =
      let (m, zero_left) = t.ready name (rw at refl) in
      let fresh : elem name done ≡ false = sym (t.marked name) ∙ rw at np in
      record {
        counts = finish-Counts name done indeg g m fresh t.counts;
        ready = λ x h. elim (Bool-cases (text_eq name x)) [
          | inl e ↦ rw (← eq_of_text_eq name x e) (m, none_left name zero_left fresh)
          | inr e ↦
              let (k, z) = t.ready x (other x e (λ o. is_started o ≡ true) h) in
              (k, none_left x z fresh)
        ];
        launched = λ h. cc;
        marked = λ x. elim (Bool-cases (text_eq name x)) [
          | inl e ↦
              rw (get-put name x finished workers, e) (ground (arith, elem-snoc x name done, e))
          | inr e ↦
              rw (get-put name x finished workers, e)
                (ground (arith, elem-snoc x name done, e, t.marked x))
        ];
        distinct = Distinct-snoc name done t.distinct fresh;
        ordered = Ordered-snoc waits done [] name t.ordered (left-zero (waits name) done zero_left);
      }
    where
      none_left :
          (x : Text)
          → left (waits x) done ≡ 0
          → elem name done ≡ false
          → left (waits x) (done ++ (name ∷ [])) ≡ 0
      none_left x z fresh = omega (arith, left-snoc (waits x) done name fresh)

      other :
          (x : Text)
          → text_eq name x ≡ false
          → (P : Option Phase → Type 0) → P (get x (put name finished workers))
          → P (get x workers)
      other x e P h = subst P (get-put name x finished workers ∙ rw e refl) h
