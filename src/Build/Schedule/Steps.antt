-- ===== src/Build/Schedule/Steps.antt =====
-- Every move keeps the invariant of the workers.
use yoe.Common.{
  Bool-cases, Option-cases, if_elim, some_inj, Distinct, elem-snoc, Distinct-put, ◌≤◌, ◌≡◌, refl,
  sym, ◌∙◌, subst, inl, inr, Bool, true, false, some, List, [], ◌∷◌, ◌++◌, append-nil, append_assoc,
  arith, Text, get, elem, keys_of_dict,
}
use yoe.Build.Schedule.{
  Job, ended, finished, BuildState, note_built, finish, launch_ready, first_state, Move, acquire,
  look, begin, build_one, complete, step, run_moves,
}
use yoe.Build.Schedule.Moves.{
  acquire_moves, look_moves, begin_moves, build_one_moves, complete_moves,
}
use yoe.Build.Schedule.Slots.{holders, holders-launch, Distinct-launch}
use yoe.Build.Schedule.Tracks.{IsJob, Tracks, first-Tracks, Tracks-launch, Tracks-finish}
use yoe.Build.Schedule.Choices.{
  Choices, must_build, first-Choices, Choices-put, Choices-launch, Choices-built,
}
use yoe.Build.Schedule.Sound.{
  Sound, is_some_error, slots-put, acquire-Sound, look_around-Sound, begin_work-Sound,
  end_work-Sound,
}

module _ (job : Job) where
  launch_ready-Sound :
      (done : List Text) (s : BuildState)
      → Tracks job done s.indeg s.workers true
      → Choices job done s.rebuilt s.workers s.stop
      → Distinct (keys_of_dict s.workers)
      → s.busy ≡ holders s.workers
      → s.busy ≤ job.parallel
      → s.stop ≡ is_some_error s.first_err
      → Sound job done (launch_ready job s)
  unfolding launch_ready
  launch_ready-Sound done s t c keys slots bounded halted =
      if_elim (Sound job done) s.stop
        (λ e. record {
          tracks = subst (Tracks job done s.indeg s.workers) (sym e) t;
          choices = c;
          keys = keys;
          slots = slots;
          bounded = bounded;
          halted = halted;
        })
        (λ e. record {
          tracks = Tracks-launch job done s.indeg s.workers s.stop t;
          choices = Choices-launch job done s.rebuilt s.workers s.stop s.indeg c;
          keys = Distinct-launch s.indeg job.order s.workers keys;
          slots = slots ∙ sym (holders-launch s.indeg job.order s.workers);
          bounded = bounded;
          halted = halted;
        })

  pub first-Sound : Sound job [] (first_state job)
  unfolding first_state holders keys_of_dict
  first-Sound =
      launch_ready-Sound [] _ (first-Tracks job) (first-Choices job false) tt refl (omega arith)
        refl

  finish-Sound :
      (done : List Text) (s : BuildState) (name : Text) (built : Bool)
      → IsJob job
      → Sound job done s
      → get name s.workers ≡ some (ended built)
      → Sound job (done ++ (name ∷ [])) (finish job name built s)
  unfolding finish note_built
  finish-Sound done s name false g i at =
      launch_ready-Sound (done ++ (name ∷ [])) _
        (Tracks-finish job done s.indeg s.workers s.stop name (ended false) g i.tracks at refl)
        (Choices-put job done s.rebuilt s.workers s.stop (done ++ (name ∷ [])) s.stop name finished
          i.choices (λ x m. ground (arith, elem-snoc x name done, m)) (λ h. h) unbuilt)
        (Distinct-put name finished s.workers i.keys)
        (omega (arith, slots-put job done s i name (ended false) at refl finished))
        (omega (arith, i.bounded)) i.halted
    where
      unbuilt : elem name s.rebuilt ≡ must_build job s.rebuilt name
      unbuilt = elim (Bool-cases (elem name s.rebuilt)) [
        | inl e ↦ cc (i.choices.only_done name e, i.tracks.marked name, at)
        | inr e ↦ e ∙ i.choices.fits name (ended false) at
      ]
  finish-Sound done s name true g i at =
      launch_ready-Sound (done ++ (name ∷ [])) _
        (Tracks-finish job done s.indeg s.workers s.stop name (ended true) g i.tracks at refl)
        (Choices-built job done s.rebuilt s.workers s.stop name s.indeg (ended true) i.tracks
          i.choices at refl (sym (i.choices.fits name (ended true) at)))
        (Distinct-put name finished s.workers i.keys)
        (omega (arith, slots-put job done s i name (ended true) at refl finished))
        (omega (arith, i.bounded)) i.halted

  -- What is finished after a move.
  abbrev pub After : List Text → BuildState → Type 0
  After done t = (more : List Text) × Sound job (done ++ more) t

  pub step-Sound :
      (done : List Text) (s t : BuildState) (m : Move)
      → IsJob job
      → Sound job done s
      → step job m s ≡ some t
      → After done t
  unfolding step
  step-Sound done s t (acquire name) g i h =
      let (at, room, e) = acquire_moves job name s t (get name s.workers) h in
      (
        [],
        subst (Sound job (done ++ [])) e
            (rw (append-nil done) (acquire-Sound job done s i name at room)),
      )
  step-Sound done s t (look name) g i h =
      let (at, e) = look_moves job name s t (get name s.workers) h in
      (
        [],
        subst (Sound job (done ++ [])) e
            (rw (append-nil done) (look_around-Sound job done s i name at)),
      )
  step-Sound done s t (begin name c) g i h =
      let (b, at, e) = begin_moves job name s t c (get name s.workers) h in
      (
        [],
        subst (Sound job (done ++ [])) e
            (rw (append-nil done) (begin_work-Sound job done s i name b c at)),
      )
  step-Sound done s t (build_one name c) g i h =
      let (at, e) = build_one_moves job name s t c (get name s.workers) h in
      (
        [],
        subst (Sound job (done ++ [])) e
            (rw (append-nil done) (end_work-Sound job done s name c i at)),
      )
  step-Sound done s t (complete name) g i h =
      let (b, at, e) = complete_moves job name s t (get name s.workers) h in
      (name ∷ [], subst (Sound job (done ++ (name ∷ []))) e (finish-Sound done s name b g i at))

  pub run_moves-Sound :
      (ms : List Move) (done : List Text) (s t : BuildState)
      → IsJob job
      → Sound job done s
      → run_moves job ms s ≡ some t
      → After done t
  unfolding run_moves
  run_moves-Sound [] done s t g i h =
      ([], subst (Sound job (done ++ [])) (some_inj h) (rw (append-nil done) i))
  run_moves-Sound (m ∷ ms) done s t g i h = elim (Option-cases (step job m s)) [
    | inl e ↦ cc (rw (e, run_moves) at h)
    | inr (u, e) ↦
        let (more, j) = step-Sound done s u m g i e in
        let (rest, k) = run_moves-Sound ms (done ++ more) u t g j (rw (e, run_moves) at h) in
        (more ++ rest, rw (← append_assoc done more rest) k)
  ]
