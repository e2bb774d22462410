-- ===== src/Build/Schedule.antt =====
-- internal/build/executor.go: the workers of `BuildUnits`, from the first `launchReady` to `wg.Wait`.
-- A move is what one worker does between two points where the others may act: it takes a slot of the
-- semaphore, runs one of its two sections under the lock, begins its work or ends it.
pub mod Moves
pub mod Slots
pub mod Tracks
pub mod Choices
pub mod Sound
pub mod Steps
pub mod Safety
pub mod Rebuilt
pub mod Progress
pub mod Bounded
use yoe.Common.{
  ltb, if◌then◌else◌, Result, ◌>>=◌, ◌>>◌, ok, err, ℤ, is_zero, pos, ℕ, suc, ◌-◌, Bool, true, false,
  not, ◌&&◌, ◌||◌, Option, none, some, List, [], ◌∷◌, ◌++◌, Text, codes, text_eq, Dict, get, put,
  elem,
}
use yoe.Common.Kahn.{degree, count_down}
use yoe.Resolve.Dag.{Node, deps_of, rdeps_of}
use yoe.Build.Plan.{UnitPlan, reuse_cache, plan_of}

-- What the workers read and do not change.
pub record Job : Type 0 where
  pub nodes : Dict Node
  pub order : List Text
  pub plans : Dict UnitPlan
  pub parallel : ℕ

pub data Phase : Type 0 where
  -- started, and waiting for a slot
  waiting : Phase
  -- with a slot, before its first section
  admitted : Phase
  -- behind its first section, with `depRebuilt`
  decided : Bool → Phase
  building : Phase
  -- before its last section, with `built`
  ended : Bool → Phase
  -- returned behind its last section, or before it
  finished stopped : Phase

pub data Status : Type 0 where
  status_building status_failed status_done : Status

pub data BuildError : Type 0 where
  cancelled : BuildError
  failed : Text → BuildError

pub record BuildState : Type 0 where
  pub indeg : Dict ℤ
  pub workers : Dict Phase
  -- the slots taken
  pub busy : ℕ
  pub rebuilt : List Text
  pub published_pkg : Bool
  pub image_refreshed : Bool
  pub first_err : Option BuildError
  pub stop : Bool
  pub progress : ℕ
  pub events : List (Text × Status)

-- `c` of the loop that fills `indeg`.
unfoldable pub count_within : List Text → List Text → ℕ
count_within order [] = 0
count_within order (d ∷ ds) =
    let rest = count_within order ds in if elem d order then suc rest else rest

unfoldable pub first_indeg : Job → List Text → Dict ℤ
first_indeg job [] = []
first_indeg job (name ∷ names) =
    (name, pos (count_within job.order (deps_of job.nodes name))) ∷ first_indeg job names

-- `started[name]`: a worker of the name is there.
abbrev pub is_started : Option Phase → Bool
is_started none = false
is_started (some _) = true

-- The loop of `launchReady`.
unfoldable pub launch : Dict ℤ → Dict Phase → List Text → Dict Phase
launch indeg workers [] = workers
launch indeg workers (name ∷ names) =
    launch indeg
      (if not (is_started (get name workers)) && is_zero (degree indeg name)
        then put name waiting workers
        else workers)
      names

unfoldable pub launch_ready : Job → BuildState → BuildState
launch_ready job s = if s.stop then s else record s { workers = launch s.indeg s.workers job.order }

-- The state at `wg.Wait`.
unfoldable pub first_state : Job → BuildState
first_state job = launch_ready job (record {
  indeg = first_indeg job job.order;
  workers = [];
  busy = 0;
  rebuilt = [];
  published_pkg = false;
  image_refreshed = false;
  first_err = none;
  stop = false;
  progress = 0;
  events = [];
})

-- `depRebuilt`
unfoldable pub any_rebuilt : List Text → List Text → Bool
any_rebuilt rebuilt [] = false
any_rebuilt rebuilt (d ∷ ds) = let rest = any_rebuilt rebuilt ds in elem d rebuilt || rest

unfoldable pub release_rdeps : List Text → Dict ℤ → List Text → Dict ℤ
release_rdeps order indeg [] = indeg
release_rdeps order indeg (rd ∷ rds) =
    release_rdeps order (if elem rd order then count_down indeg rd else indeg) rds

abbrev pub move_to : Phase → Text → BuildState → BuildState
move_to phase name s = record s { workers = put name phase s.workers }

-- The worker returns before its last section: `firstErr` keeps the first error.
abbrev pub or_first : BuildError → Option BuildError → Option BuildError
or_first e none = some e
or_first e (some first) = some first

unfoldable pub give_up : BuildError → Text → BuildState → BuildState
give_up e name s = record s {
  workers = put name stopped s.workers;
  busy = s.busy - 1;
  first_err = or_first e s.first_err;
  stop = true;
}

-- What is noted of a unit that was built.
unfoldable pub note_built : UnitPlan → Text → BuildState → BuildState
note_built plan name s =
    let image = text_eq plan.unit.class (codes "image") in
    let container = text_eq plan.unit.class (codes "container") in
    record s {
      rebuilt = name ∷ s.rebuilt;
      image_refreshed = image || s.image_refreshed;
      published_pkg = not image && not container || s.published_pkg;
    }

-- The last section: the unit is finished, and `launchReady` runs under the same lock.
unfoldable pub finish : Job → Text → Bool → BuildState → BuildState
finish job name built s =
    let noted = if built then note_built (plan_of job.plans name) name s else s in
    launch_ready job (record noted {
      workers = put name finished noted.workers;
      busy = noted.busy - 1;
      indeg = release_rdeps job.order noted.indeg (rdeps_of job.nodes name);
    })

-- `ctx.Err()` and the result of `buildOne` are chosen outside.
pub data Move : Type 0 where
  acquire : Text → Move
  look : Text → Move
  begin : Text → Bool → Move
  build_one : Text → Bool → Move
  complete : Text → Move

unfoldable pub begin_work : Job → Text → Bool → Bool → BuildState → BuildState
begin_work job name dep_rebuilt true s = give_up cancelled name s
begin_work job name dep_rebuilt false s =
    if reuse_cache (plan_of job.plans name) && not dep_rebuilt
    then record s { workers = put name (ended false) s.workers; progress = suc s.progress }
    else record s {
      workers = put name building s.workers;
      progress = suc s.progress;
      events = s.events ++ ((name, status_building) ∷ []);
    }

unfoldable pub end_work : Text → Bool → BuildState → BuildState
end_work name true s = record s {
  workers = put name (ended true) s.workers;
  events = s.events ++ ((name, status_done) ∷ []);
}
end_work name false s =
    give_up (failed name) name (record s { events = s.events ++ ((name, status_failed) ∷ []) })

unfoldable pub look_around : Job → Text → BuildState → BuildState
look_around job name s =
    if s.stop
    then record s { workers = put name stopped s.workers; busy = s.busy - 1 }
    else move_to (decided (any_rebuilt s.rebuilt (deps_of job.nodes name))) name s

-- `none` where the worker cannot make the move.
unfoldable pub step_in : Job → Move → Option Phase → BuildState → Option BuildState
step_in job (acquire name) (some waiting) s =
    if ltb s.busy job.parallel
    then some (record s { workers = put name admitted s.workers; busy = suc s.busy })
    else none
step_in job (look name) (some admitted) s = some (look_around job name s)
step_in job (begin name is_cancelled) (some (decided dep_rebuilt)) s =
    some (begin_work job name dep_rebuilt is_cancelled s)
step_in job (build_one name succeeds) (some building) s = some (end_work name succeeds s)
step_in job (complete name) (some (ended built)) s = some (finish job name built s)
step_in job _ _ s = none

abbrev pub mover : Move → Text
mover (acquire name) = name
mover (look name) = name
mover (begin name _) = name
mover (build_one name _) = name
mover (complete name) = name

unfoldable pub step : Job → Move → BuildState → Option BuildState
step job m s = step_in job m (get (mover m) s.workers) s

unfoldable pub run_moves : Job → List Move → BuildState → Option BuildState
run_moves job [] s = some s
run_moves job (m ∷ ms) s = elim (step job m s) [ none ↦ none | some t ↦ run_moves job ms t ]

-- What is left to do at the end: the error, or whether the package index is to be refreshed.
unfoldable pub outcome : BuildState → Result BuildError Bool
outcome s = elim s.first_err [
  | some e ↦ err e
  | none ↦ ok (s.published_pkg && not s.image_refreshed)
]
