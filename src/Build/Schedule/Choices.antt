-- ===== src/Build/Schedule/Choices.antt =====
-- Which units are built, and which are served from the cache.
use yoe.Common.{
  if◌then◌else◌, Bool-cases, some_inj, elem-snoc, ℤ, is_zero, ◌≡◌, refl, sym, ◌∙◌, subst, inl, inr,
  Bool, true, false, not, ◌&&◌, some, List, [], ◌∷◌, ◌++◌, arith, text_eq_refl, eq_of_text_eq,
  text_eq_iff, Text, text_eq, get-put, Dict, get, put, elem,
}
use yoe.Common.Kahn.Released.{left-zero}
use yoe.Resolve.Dag.{deps_of}
use yoe.Build.Plan.{reuse_cache, plan_of}
use yoe.Build.Schedule.{
  Job, Phase, waiting, admitted, decided, building, ended, finished, stopped, is_started, launch,
  any_rebuilt,
}
use yoe.Build.Schedule.Slots.{get-launch}
use yoe.Build.Schedule.Tracks.{Tracks, waits, is_finished, elem-within}
use yoe.Common.Kahn.{degree}

pub any_rebuilt-cons :
    (name : Text) (rebuilt ds : List Text)
    → elem name ds ≡ false
    → any_rebuilt (name ∷ rebuilt) ds ≡ any_rebuilt rebuilt ds
unfolding any_rebuilt elem
any_rebuilt-cons name rebuilt [] h = refl
any_rebuilt-cons name rebuilt (d ∷ ds) h =
    ground (arith, any_rebuilt-cons name rebuilt ds, text_eq_iff d name, text_eq_iff name d)

module _ (job : Job) where
  -- What a unit's plan and its dependencies ask for: that it is built.
  abbrev pub must_build : List Text → Text → Bool
  must_build rebuilt x =
      not (reuse_cache (plan_of job.plans x) && not (any_rebuilt rebuilt (deps_of job.nodes x)))

  abbrev pub Fits : List Text → Bool → Text → Phase → Type 0
  Fits rebuilt stop x waiting = Unit
  Fits rebuilt stop x admitted = Unit
  Fits rebuilt stop x (decided b) = b ≡ any_rebuilt rebuilt (deps_of job.nodes x)
  Fits rebuilt stop x building = must_build rebuilt x ≡ true
  Fits rebuilt stop x (ended b) = b ≡ must_build rebuilt x
  Fits rebuilt stop x finished = elem x rebuilt ≡ must_build rebuilt x
  Fits rebuilt stop x stopped = stop ≡ true

  Fits-same :
      (old new : List Text) (stop after : Bool) (x : Text) (p : Phase)
      → any_rebuilt new (deps_of job.nodes x) ≡ any_rebuilt old (deps_of job.nodes x)
      → elem x new ≡ elem x old
      → (stop ≡ true → after ≡ true)
      → Fits old stop x p
      → Fits new after x p
  Fits-same old new stop after x waiting a e s f = tt
  Fits-same old new stop after x admitted a e s f = tt
  Fits-same old new stop after x (decided b) a e s f = f ∙ sym a
  Fits-same old new stop after x building a e s f = rw a f
  Fits-same old new stop after x (ended b) a e s f = rw a f
  Fits-same old new stop after x finished a e s f = rw (a, e) f
  Fits-same old new stop after x stopped a e s f = s f

  pub record Choices (done rebuilt : List Text) (workers : Dict Phase) (stop : Bool) : Type 0 where
    pub fits : (x : Text) (p : Phase) → get x workers ≡ some p → Fits rebuilt stop x p
    pub only_done : (x : Text) → elem x rebuilt ≡ true → elem x done ≡ true

  pub first-Choices : (stop : Bool) → Choices [] [] [] stop
  unfolding get elem
  first-Choices stop = record { fits = λ x p h. cc; only_done = λ x h. cc }

  module _ (done rebuilt : List Text) (workers : Dict Phase) (stop : Bool) where
    pub Choices-put :
        (more : List Text) (after : Bool) (name : Text) (q : Phase)
        → Choices done rebuilt workers stop
        → ((x : Text) → elem x done ≡ true → elem x more ≡ true)
        → (stop ≡ true → after ≡ true)
        → Fits rebuilt after name q
        → Choices more rebuilt (put name q workers) after
    Choices-put more after name q c grows later f = record {
      fits = λ x p h. elim (Bool-cases (text_eq name x)) [
        | inl e ↦
            let same : q ≡ p = some_inj (rw (get-put name x q workers, e) at h) in
            subst (Fits rebuilt after x) same (rw (← eq_of_text_eq name x e) f)
        | inr e ↦
            Fits-same rebuilt rebuilt stop after x p refl refl later
              (c.fits x p (rw (get-put name x q workers, e) at h))
      ];
      only_done = λ x h. grows x (c.only_done x h);
    }

    pub Choices-launch :
        (indeg : Dict ℤ)
        → Choices done rebuilt workers stop
        → Choices done rebuilt (launch indeg workers job.order) stop
    Choices-launch indeg c = record {
      fits = λ x p h.
          go x p (not (is_started (get x workers)) && elem x job.order && is_zero (degree indeg x))
            (rw (get-launch indeg job.order workers x) at h);
      only_done = c.only_done;
    }
      where
        go :
            (x : Text) (p : Phase) (b : Bool)
            → (if b then some waiting else get x workers) ≡ some p
            → Fits rebuilt stop x p
        go x p true h = subst (Fits rebuilt stop x) (some_inj h) tt
        go x p false h = c.fits x p h

    -- A unit that was built is finished. What has started waits for it no more, since all that it waits
    -- for is finished.
    pub Choices-built :
        (name : Text) (indeg : Dict ℤ) (p : Phase)
        → Tracks job done indeg workers stop
        → Choices done rebuilt workers stop
        → get name workers ≡ some p
        → is_finished (some p) ≡ false
        → must_build rebuilt name ≡ true
        → Choices (done ++ (name ∷ [])) (name ∷ rebuilt) (put name finished workers) stop
    unfolding elem
    Choices-built name indeg p t c at np needed = record {
      fits = λ x q h. elim (Bool-cases (text_eq name x)) [
        | inl e ↦
            let same : finished ≡ q = some_inj (rw (get-put name x finished workers, e) at h) in
            subst (Fits (name ∷ rebuilt) stop x) same (
              rw (← eq_of_text_eq name x e)
                (rw (unchanged name (rw at refl), needed, text_eq_refl name) refl))
        | inr e ↦
            let old = rw (get-put name x finished workers, e) at h in
            Fits-same rebuilt (name ∷ rebuilt) stop stop x q (unchanged x (rw old refl)) (rw e refl)
              (λ s. s) (c.fits x q old)
      ];
      only_done =
          λ x h. ground (arith, h, elem-snoc x name done, c.only_done x, text_eq_iff name x);
    }
      where
        not_done : elem name done ≡ false
        not_done = sym (t.marked name) ∙ rw at np

        avoids :
            (x : Text) (b : Bool)
            → is_started (get x workers) ≡ true
            → elem name (deps_of job.nodes x) ≡ b
            → b ≡ false
        avoids x false h e = refl
        avoids x true h e =
            let waited : elem name (waits job x) ≡ true =
              rw (elem-within job name (deps_of job.nodes x) (t.ready name (rw at refl)).0) e in
            cc (left-zero (waits job x) done (t.ready x h).1 name waited, not_done)

        unchanged :
            (x : Text)
            → is_started (get x workers) ≡ true
            → any_rebuilt (name ∷ rebuilt) (deps_of job.nodes x)
              ≡ any_rebuilt rebuilt (deps_of job.nodes x)
        unchanged x h = any_rebuilt-cons name rebuilt (deps_of job.nodes x) (avoids x _ h refl)
