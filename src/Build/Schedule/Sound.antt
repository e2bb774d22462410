-- ===== src/Build/Schedule/Sound.antt =====
-- The invariant of the workers, which every move keeps.
use yoe.Common.{
  Bool-cases, if_elim, Distinct, Distinct-put, suc, ◌+◌, ◌-◌, ◌≤◌, ◌<◌, ◌≡◌, refl, sym, ap, ◌∙◌,
  inl, inr, Bool, true, false, not, ◌&&◌, Option, none, some, List, arith, Text, get, put,
  keys_of_dict,
}
use yoe.Resolve.Dag.{deps_of}
use yoe.Build.Plan.{reuse_cache, plan_of}
use yoe.Build.Schedule.{
  Job, Phase, waiting, admitted, decided, building, ended, stopped, any_rebuilt, BuildState,
  BuildError, cancelled, failed, or_first, give_up, begin_work, end_work, look_around, Status,
}
use yoe.Build.Schedule.Slots.{holds, holders, holders-put}
use yoe.Build.Schedule.Tracks.{Tracks, is_finished, Tracks-put}
use yoe.Build.Schedule.Choices.{Choices, Fits, Choices-put}

abbrev pub is_some_error : Option BuildError → Bool
is_some_error none = false
is_some_error (some _) = true

module _ (job : Job) where
  pub record Sound (done : List Text) (s : BuildState) : Type 0 where
    pub tracks : Tracks job done s.indeg s.workers s.stop
    pub choices : Choices job done s.rebuilt s.workers s.stop
    pub keys : Distinct (keys_of_dict s.workers)
    pub slots : s.busy ≡ holders s.workers
    pub bounded : s.busy ≤ job.parallel
    pub halted : s.stop ≡ is_some_error s.first_err

  module _ (done : List Text) (s : BuildState) (i : Sound done s) (name : Text) (p : Phase)
      (at : get name s.workers ≡ some p) (open_yet : is_finished (some p) ≡ false) where
    pub slots-put : (q : Phase) → holders (put name q s.workers) + holds p ≡ s.busy + holds q
    slots-put q = ground (arith, holders-put name q s.workers, at, i.slots)

    -- The worker goes on with its slot, or takes one.
    pub goes_on :
        (t : BuildState) (q : Phase)
        → is_finished (some q) ≡ false
        → t.indeg ≡ s.indeg
        → t.workers ≡ put name q s.workers
        → t.rebuilt ≡ s.rebuilt
        → (s.stop ≡ true → t.stop ≡ true)
        → Fits job s.rebuilt t.stop name q
        → t.busy + holds p ≡ s.busy + holds q
        → t.busy ≤ job.parallel
        → t.stop ≡ is_some_error t.first_err
        → Sound done t
    goes_on t q open_still e w r later f b bound h = record {
      tracks =
          rw (e, w)
            (Tracks-put job done s.indeg s.workers s.stop t.stop name p q i.tracks at open_yet
              open_still earlier);
      choices =
          rw (r, w)
            (Choices-put job done s.rebuilt s.workers s.stop done t.stop name q i.choices (λ x m. m)
              later f);
      keys = rw w (Distinct-put name q s.workers i.keys);
      slots = rw w (omega (arith, slots-put q));
      bounded = bound;
      halted = h;
    }
      where
        earlier : t.stop ≡ false → s.stop ≡ false
        earlier n = elim (Bool-cases s.stop) [ inl y ↦ cc (later y) | inr y ↦ y ]

    module _ (held : holds p ≡ 1) where
      slot_freed : (q : Phase) → holds q ≡ 0 → s.busy - 1 + holds p ≡ s.busy + holds q
      slot_freed q e = omega (arith, slots-put q, held, e)

      give_up-Sound : (e : BuildError) → Sound done (give_up e name s)
      unfolding give_up
      give_up-Sound e =
          goes_on (give_up e name s) stopped refl refl refl refl (λ h. refl) refl
            (slot_freed stopped refl) (omega (arith, i.bounded)) (sym (some_first s.first_err))
        where
          some_first : (f : Option BuildError) → is_some_error (or_first e f) ≡ true
          some_first none = refl
          some_first (some g) = refl

      keeps_slot :
          (t : BuildState) (q : Phase)
          → holds q ≡ 1
          → is_finished (some q) ≡ false
          → t.indeg ≡ s.indeg
          → t.workers ≡ put name q s.workers
          → t.rebuilt ≡ s.rebuilt
          → t.stop ≡ s.stop
          → t.busy ≡ s.busy
          → t.first_err ≡ s.first_err
          → Fits job s.rebuilt t.stop name q
          → Sound done t
      keeps_slot t q h n a b c d e f g =
          goes_on t q n a b c (λ x. d ∙ x) g (omega (arith, e, held, h))
            (omega (arith, e, i.bounded)) (d ∙ i.halted ∙ ap is_some_error (sym f))

  module _ (done : List Text) (s : BuildState) (i : Sound done s) (name : Text) where
    pub acquire-Sound :
        get name s.workers ≡ some waiting
        → s.busy < job.parallel
        → Sound done (record s { workers = put name admitted s.workers; busy = suc s.busy })
    acquire-Sound at room =
        goes_on done s i name waiting at refl _ admitted refl refl refl refl (λ h. h) tt
          (omega arith) (omega (arith, room)) i.halted

    pub look_around-Sound : get name s.workers ≡ some admitted → Sound done (look_around job name s)
    unfolding look_around
    look_around-Sound at =
        if_elim (Sound done) s.stop
          (λ e.
            goes_on done s i name admitted at refl _ stopped refl refl refl refl (λ h. h) e
              (slot_freed done s i name admitted at refl refl stopped refl)
              (omega (arith, i.bounded)) i.halted)
          (λ e.
            keeps_slot done s i name admitted at refl refl _ _ refl refl refl refl refl refl refl
              refl refl)

    pub begin_work-Sound :
        (b is_cancelled : Bool)
        → get name s.workers ≡ some (decided b)
        → Sound done (begin_work job name b is_cancelled s)
    unfolding begin_work
    begin_work-Sound b true at = give_up-Sound done s i name (decided b) at refl refl cancelled
    begin_work-Sound b false at =
        let told : b ≡ any_rebuilt s.rebuilt (deps_of job.nodes name) =
          i.choices.fits name (decided b) at in
        let reuse = reuse_cache (plan_of job.plans name) in
        if_elim (Sound done) (reuse && not b)
          (λ e.
            keeps_slot done s i name (decided b) at refl refl _ (ended false) refl refl refl refl
              refl refl refl refl (ground (arith, e, told)))
          (λ e.
            keeps_slot done s i name (decided b) at refl refl _ building refl refl refl refl refl
              refl refl refl (ground (arith, e, told)))

    with_events : (events : List (Text × Status)) → Sound done (record s { events = events })
    with_events events = record {
      tracks = i.tracks;
      choices = i.choices;
      keys = i.keys;
      slots = i.slots;
      bounded = i.bounded;
      halted = i.halted;
    }

  pub end_work-Sound :
      (done : List Text) (s : BuildState) (name : Text) (succeeds : Bool)
      → Sound done s
      → get name s.workers ≡ some building
      → Sound done (end_work name succeeds s)
  unfolding end_work
  end_work-Sound done s name true i at =
      keeps_slot done s i name building at refl refl _ (ended true) refl refl refl refl refl refl
        refl refl (sym (i.choices.fits name building at))
  end_work-Sound done s name false i at =
      give_up-Sound done _ (with_events done s i name _) name building at refl refl (failed name)
