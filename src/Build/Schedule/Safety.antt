-- ===== src/Build/Schedule/Safety.antt =====
-- What holds at every moment of a build, whichever worker moves when.
use yoe.Common.{◌≤◌, ◌≡◌, refl, ◌∙◌, true, Option, none, some, List, [], arith, Text, get, elem}
use yoe.Common.Kahn.Released.{left-zero}
use yoe.Resolve.Dag.{deps_of}
use yoe.Build.Schedule.{
  Job, Phase, finished, waiting, admitted, decided, building, ended, stopped, Move, BuildState,
  first_state, run_moves,
}
use yoe.Build.Schedule.Slots.{holders}
use yoe.Build.Schedule.Tracks.{IsJob, waits, is_finished, elem-within}
use yoe.Build.Schedule.Choices.{must_build}
use yoe.Build.Schedule.Sound.{Sound}
use yoe.Build.Schedule.Steps.{first-Sound, run_moves-Sound}

-- A state that a build can be in.
abbrev pub Reached : Job → BuildState → Type 0
Reached job t = (ms : List Move) × (run_moves job ms (first_state job) ≡ some t)

pub Reached-Sound :
    (job : Job) (t : BuildState) → IsJob job → Reached job t → (done : List Text) × Sound job done t
Reached-Sound job t g (ms, h) = run_moves-Sound job ms [] (first_state job) t g (first-Sound job) h

pub finished_of : (o : Option Phase) → is_finished o ≡ true → o ≡ some finished
finished_of none h = cc
finished_of (some waiting) h = cc
finished_of (some admitted) h = cc
finished_of (some (decided b)) h = cc
finished_of (some building) h = cc
finished_of (some (ended b)) h = cc
finished_of (some finished) h = refl
finished_of (some stopped) h = cc

module _ (job : Job) (t : BuildState) (g : IsJob job) (r : Reached job t) where
  -- In every state that a job with a build order can reach, a unit that has a worker is one of the build's order, and all of its
  -- dependencies that the build takes up are finished.
  pub worker-deps_finished :
      (x d : Text) (p : Phase)
      → get x t.workers ≡ some p
      → elem d (deps_of job.nodes x) ≡ true
      → elem d job.order ≡ true
      → (elem x job.order ≡ true) × (get d t.workers ≡ some finished)
  worker-deps_finished x d p at dep m =
      let (done, i) = Reached-Sound job t g r in
      let (k, z) = i.tracks.ready x (rw at refl) in
      let waited : elem d (waits job x) ≡ true =
        rw (elem-within job d (deps_of job.nodes x) m) dep in
      (
        k,
        finished_of (get d t.workers) (i.tracks.marked d ∙ left-zero (waits job x) done z d waited),
      )

  -- In every state that a job with a build order can reach, no more workers have a slot than the build may run at once.
  pub holders-le-parallel : holders t.workers ≤ job.parallel
  holders-le-parallel = let (done, i) = Reached-Sound job t g r in omega (arith, i.slots, i.bounded)

  pub finished-must_build :
      (x : Text) → get x t.workers ≡ some finished → elem x t.rebuilt ≡ must_build job t.rebuilt x
  finished-must_build x at = let (done, i) = Reached-Sound job t g r in i.choices.fits x finished at

  pub rebuilt-finished :
      (x : Text)
      → elem x t.rebuilt ≡ true
      → (get x t.workers ≡ some finished) × (elem x job.order ≡ true)
  rebuilt-finished x m =
      let (done, i) = Reached-Sound job t g r in
      let at = finished_of (get x t.workers) (i.tracks.marked x ∙ i.choices.only_done x m) in
      (at, (i.tracks.ready x (rw at refl)).0)
