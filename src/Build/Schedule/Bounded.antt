-- ===== src/Build/Schedule/Bounded.antt =====
-- A build makes at most five moves for each of its units.
use yoe.Common.{
  Bool-cases, Option-cases, if_elim, some_inj, length, ℤ, ℕ, ◌+◌, ◌*◌, ◌≤◌, ◌<◌, ◌≡◌, refl, ap,
  subst, inl, inr, Bool, true, false, not, ◌&&◌, Option, none, some, List, [], ◌∷◌, ◌++◌, arith,
  eq_of_text_eq, text_eq_iff, Text, text_eq, get-put, Dict, get, put, elem,
}
use yoe.Build.Plan.{reuse_cache, plan_of}
use yoe.Build.Schedule.{
  Job, BuildState, Phase, waiting, admitted, decided, building, ended, finished, stopped, Move,
  acquire, look, begin, build_one, complete, step, launch, launch_ready, first_state, run_moves,
  look_around, begin_work, end_work, give_up, note_built, finish,
}
use yoe.Build.Schedule.Moves.{
  acquire_moves, look_moves, begin_moves, build_one_moves, complete_moves,
}
use yoe.Build.Schedule.Slots.{get-launch}
use yoe.Build.Schedule.Tracks.{IsJob}
use yoe.Build.Schedule.Sound.{Sound}
use yoe.Build.Schedule.Steps.{first-Sound, step-Sound}

-- How many moves a worker in this phase can still make.
abbrev rank : Phase → ℕ
rank waiting = 5
rank admitted = 4
rank (decided _) = 3
rank building = 2
rank (ended _) = 1
rank finished = 0
rank stopped = 0

abbrev rank_at : Option Phase → ℕ
rank_at none = 5
rank_at (some p) = rank p

effort : Dict Phase → List Text → ℕ
effort workers [] = 0
effort workers (x ∷ xs) = rank_at (get x workers) + effort workers xs

effort-put_le :
    (name : Text) (q : Phase) (workers : Dict Phase) (xs : List Text)
    → rank q ≤ rank_at (get name workers)
    → effort (put name q workers) xs ≤ effort workers xs
unfolding effort
effort-put_le name q workers [] h = omega arith
effort-put_le name q workers (x ∷ xs) h =
    let rest = effort-put_le name q workers xs h in
    rw (get-put name x q workers) (elim (Bool-cases (text_eq name x)) [
      | inl e ↦ rw e (rw (← eq_of_text_eq name x e) (omega (arith, h, rest)))
      | inr e ↦ rw e (omega (arith, rest))
    ])

effort-put :
    (name : Text) (q : Phase) (workers : Dict Phase) (xs : List Text)
    → rank q < rank_at (get name workers)
    → elem name xs ≡ true
    → effort (put name q workers) xs < effort workers xs
unfolding effort elem
effort-put name q workers [] h m = absurd (cc)
effort-put name q workers (x ∷ xs) h m =
    let rest = effort-put_le name q workers xs (omega (arith, h)) in
    rw (get-put name x q workers) (elim (Bool-cases (text_eq name x)) [
      | inl e ↦ rw e (rw (← eq_of_text_eq name x e) (omega (arith, h, rest)))
      | inr e ↦
          let less =
            effort-put name q workers xs h
              (ground (arith, m, text_eq_iff x name, text_eq_iff name x, e)) in
          rw e (omega (arith, less))
    ])

effort-launch :
    (indeg : Dict ℤ) (workers : Dict Phase) (names xs : List Text)
    → effort (launch indeg workers names) xs ≡ effort workers xs
unfolding effort
effort-launch indeg workers names [] = refl
effort-launch indeg workers names (x ∷ xs) =
    rw (get-launch indeg names workers x) (ground (arith, effort-launch indeg workers names xs))

effort-nil : (xs : List Text) → effort [] xs ≡ 5 * length xs
unfolding effort get
effort-nil [] = refl
effort-nil (x ∷ xs) = omega (arith, effort-nil xs)

module _ (job : Job) where
  abbrev left_over : BuildState → ℕ
  left_over s = effort s.workers job.order

  left_over-launch_ready : (s : BuildState) → left_over (launch_ready job s) ≡ left_over s
  unfolding launch_ready
  left_over-launch_ready s =
      if_elim (λ u. left_over u ≡ left_over s) s.stop (λ e. refl)
        (λ e. effort-launch s.indeg s.workers job.order job.order)

  module _ (done : List Text) (s : BuildState) (i : Sound job done s) (name : Text) (p q : Phase)
      (at : get name s.workers ≡ some p) where
    goes_down : rank q < rank p → effort (put name q s.workers) job.order < left_over s
    goes_down h =
        effort-put name q s.workers job.order (rw at h) (i.tracks.ready name (rw at refl)).0

  step_down :
      (done : List Text) (s t : BuildState) (m : Move)
      → Sound job done s
      → step job m s ≡ some t
      → left_over t < left_over s
  unfolding step look_around begin_work end_work give_up finish note_built
  step_down done s t (acquire name) i h =
      let (at, room, e) = acquire_moves job name s t (get name s.workers) h in
      subst (λ u. left_over u < left_over s) e
        (goes_down done s i name waiting admitted at (omega arith))
  step_down done s t (look name) i h =
      let (at, e) = look_moves job name s t (get name s.workers) h in
      subst (λ u. left_over u < left_over s) e
        (if_elim (λ u. left_over u < left_over s) s.stop
          (λ f. goes_down done s i name admitted stopped at (omega arith))
          (λ f. goes_down done s i name admitted (decided _) at (omega arith)))
  step_down done s t (begin name true) i h =
      let (b, at, e) = begin_moves job name s t true (get name s.workers) h in
      subst (λ u. left_over u < left_over s) e
        (goes_down done s i name (decided b) stopped at (omega arith))
  step_down done s t (begin name false) i h =
      let (b, at, e) = begin_moves job name s t false (get name s.workers) h in
      subst (λ u. left_over u < left_over s) e
        (if_elim (λ u. left_over u < left_over s) (reuse_cache (plan_of job.plans name) && not b)
          (λ f. goes_down done s i name (decided b) (ended false) at (omega arith))
          (λ f. goes_down done s i name (decided b) building at (omega arith)))
  step_down done s t (build_one name true) i h =
      let (at, e) = build_one_moves job name s t true (get name s.workers) h in
      subst (λ u. left_over u < left_over s) e
        (goes_down done s i name building (ended true) at (omega arith))
  step_down done s t (build_one name false) i h =
      let (at, e) = build_one_moves job name s t false (get name s.workers) h in
      subst (λ u. left_over u < left_over s) e
        (goes_down done s i name building stopped at (omega arith))
  step_down done s t (complete name) i h =
      let (b, at, e) = complete_moves job name s t (get name s.workers) h in
      subst (λ u. left_over u < left_over s) e (finish_down b at)
    where
      finish_down :
          (b : Bool)
          → get name s.workers ≡ some (ended b)
          → left_over (finish job name b s) < left_over s
      finish_down true at = omega (
        arith,
        left_over-launch_ready _,
        goes_down done s i name (ended true) finished at (omega arith),
      )
      finish_down false at = omega (
        arith,
        left_over-launch_ready _,
        goes_down done s i name (ended false) finished at (omega arith),
      )

  run_down :
      (ms : List Move) (done : List Text) (s t : BuildState)
      → IsJob job
      → Sound job done s
      → run_moves job ms s ≡ some t
      → length ms + left_over t ≤ left_over s
  unfolding run_moves
  run_down [] done s t g i h = omega (arith, ap left_over (some_inj h))
  run_down (m ∷ ms) done s t g i h = elim (Option-cases (step job m s)) [
    | inl e ↦ cc (rw (e, run_moves) at h)
    | inr (u, e) ↦
        let (more, j) = step-Sound job done s u m g i e in
        let rest = run_down ms (done ++ more) u t g j (rw (e, run_moves) at h) in
        omega (arith, rest, step_down done s u m i e)
  ]

  -- From the start of a job with a build order no schedule has more than five moves for each unit of the order, so
  -- that every build comes to a state in which no worker can move.
  pub run_moves-length :
      (ms : List Move) (t : BuildState)
      → IsJob job
      → run_moves job ms (first_state job) ≡ some t
      → length ms ≤ 5 * length job.order
  unfolding first_state
  run_moves-length ms t g h = omega (
    arith,
    run_down ms [] (first_state job) t g (first-Sound job) h,
    left_over-launch_ready _,
    effort-nil job.order,
  )
