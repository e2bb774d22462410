-- ===== src/Build/Tests.antt =====
-- A build of two units, and the theorems at this build.
use yoe.Common.{
  length, ok, Distinct, pos, compare_text, insert_sorted, sort_strings, ◌*◌, ◌≤◌, ◌≡◌, refl, ◌↔◌,
  ◌⊎◌, Bool, true, false, none, some, List, [], ◌∷◌, arith, Text, codes, text_eq, get, put, elem,
}
use yoe.Common.Kahn.{count_down}
use yoe.Starlark.Units.{PackageUnit, empty_unit, not_buildable}
use yoe.Starlark.Projects.{lookup_unit, resolve_for_distro}
use yoe.Resolve.Sort.Round.{IsCounted}
use yoe.Resolve.Sort.Built.{build_dag-IsCounted}
use yoe.Resolve.Walk.{all_deps_of, all_rdeps_of, walk_of, walk_from}
use yoe.Resolve.Walk.Listed.{transitive_deps-DependsOn}
use yoe.Resolve.Sort.Order.{IsOrder}
use yoe.Common.Kahn.Ordered.{Ordered}
use yoe.Resolve.Dag.{deps_of}
use yoe.Resolve.Walk.{transitive_deps}
use yoe.Resolve.Walk.Graph.{DependsOn, all_deps_of-DependsOn, all_rdeps_of-DependsOn}
use yoe.Resolve.Tests.{
  alpine, app, musl, source_project, view_nodes, build_view, sort_view, view-Distinct,
}
use yoe.Build.Order.{
  build_order, chosen_order, filter_build_order, needed_from, first_unbuildable, skip_unbuildable,
  within, blocked_units,
}
use yoe.Build.Order.Chosen.{IsChosen}
use yoe.Build.Order.Outcome.{IsBuild, build_order-IsBuild}
use yoe.Build.Order.Blocked.{blocked_units-DependsOn}
use yoe.Build.Plan.{Options, UnitPlan, plan_units, reuse_cache}
use yoe.Build.Plan.Planned.{IsPlanned, plan_units-IsPlanned}
use yoe.Build.Schedule.{
  Job, BuildState, finished, stopped, Move, acquire, look, begin, build_one, complete, step,
  step_in, run_moves, first_state, first_indeg, count_within, launch_ready, launch, look_around,
  any_rebuilt, begin_work, end_work, finish, note_built, release_rdeps, give_up, Phase,
  status_building, status_done, outcome,
}
use yoe.Build.Schedule.Slots.{holders}
use yoe.Build.Schedule.Tracks.{IsJob}
use yoe.Build.Schedule.Safety.{worker-deps_finished, holders-le-parallel}
use yoe.Build.Schedule.Rebuilt.{Rebuilds, finished-Rebuilds}
use yoe.Build.Schedule.Progress.{IsQuiet, quiet-finished}
use yoe.Build.Schedule.Bounded.{run_moves-length}
use yoe.Build.Finish.{build-finished, job_of}

building_order : Unit {0}
unfolding build_order chosen_order filter_build_order needed_from first_unbuildable skip_unbuildable
    within all_deps_of walk_of walk_from sort_strings insert_sorted compare_text not_buildable
    lookup_unit resolve_for_distro get put elem text_eq
building_order = tt

order_here : build_order source_project alpine (app ∷ []) ≡ ok (view_nodes, musl ∷ app ∷ [])
unfolding building_order
order_here = rw (build_view, build_order, sort_view) refl

build_order-IsBuild_example :
    IsBuild source_project alpine (app ∷ []) (build_order source_project alpine (app ∷ []))
build_order-IsBuild_example = build_order-IsBuild source_project alpine (app ∷ []) view-Distinct

view_nodes-IsCounted : IsCounted view_nodes
view_nodes-IsCounted = build_dag-IsCounted source_project alpine view_nodes view-Distinct build_view

all_deps_of-DependsOn_example :
    (out : List Text) × (all_deps_of view_nodes app ≡ ok out)
    × Distinct out
    × ((x : Text) → elem x out ≡ true ↔ DependsOn view_nodes app x)
unfolding building_order
all_deps_of-DependsOn_example = all_deps_of-DependsOn view_nodes view_nodes-IsCounted app refl

all_rdeps_of-DependsOn_example :
    (out : List Text) × (all_rdeps_of view_nodes musl ≡ ok out)
    × Distinct out
    × ((x : Text) → elem x out ≡ true ↔ DependsOn view_nodes x musl)
unfolding building_order
all_rdeps_of-DependsOn_example = all_rdeps_of-DependsOn view_nodes view_nodes-IsCounted musl refl

transitive_deps-DependsOn_example :
    (out : List Text) × (transitive_deps view_nodes app ≡ some out)
    × Distinct out
    × ((x : Text) → elem x out ≡ true ↔ DependsOn view_nodes app x)
    × ((order : List Text) → IsOrder view_nodes order → Ordered (deps_of view_nodes) [] out)
transitive_deps-DependsOn_example = transitive_deps-DependsOn view_nodes view_nodes-IsCounted app

blocked_units-DependsOn_example :
    elem app (blocked_units view_nodes musl (musl ∷ app ∷ [])) ≡ true
    ↔ (elem app (musl ∷ app ∷ []) ≡ true) × DependsOn view_nodes app musl
unfolding building_order
blocked_units-DependsOn_example =
    blocked_units-DependsOn view_nodes musl (musl ∷ app ∷ []) view_nodes-IsCounted refl app

abbrev opts : Options
opts = record {
  force = false;
  clean = false;
  no_cache = false;
  arch = codes "x86_64";
  machine = codes "qemu";
  effective_distro = alpine;
}

-- Only `app` has a build on disk.
abbrev has_build : PackageUnit → Text → Text → Bool
has_build u dir hash = text_eq u.name app

plan_units-IsPlanned_example :
    IsPlanned has_build source_project [] opts []
      (musl ∷ app ∷ [])
      []
      (plan_units has_build source_project (musl ∷ app ∷ []) [] opts [] [])
plan_units-IsPlanned_example =
    plan_units-IsPlanned has_build source_project [] opts [] (musl ∷ app ∷ []) []

abbrev plan : Text → Bool → UnitPlan
plan name cached = record {
  unit = record empty_unit { name = name };
  hash = [];
  scope_dir = codes "x86_64";
  cached = cached;
  forced = false;
  no_cache = false;
}

abbrev job : Job
job = job_of view_nodes (musl ∷ app ∷ []) ((musl, plan musl false) ∷ (app, plan app true) ∷ []) 1

job-IsJob : IsJob job
unfolding building_order
job-IsJob = record {
  distinct = (refl, (refl, tt));
  ordered = ((λ y m. cc), ((λ y m. ground (arith, m)), tt));
  mirrored = view_nodes-IsCounted.mirrored;
}

running : Unit {0}
unfolding run_moves step step_in first_state first_indeg count_within launch_ready launch count_down
    look_around any_rebuilt begin_work end_work finish note_built release_rdeps give_up reuse_cache
    get put elem text_eq outcome
running = tt

-- `musl` is built, and so is `app`, although it is cached.
abbrev moves : List Move
moves =
    acquire musl
    ∷ look musl
    ∷ begin musl false
    ∷ build_one musl true
    ∷ complete musl
    ∷ acquire app
    ∷ look app
    ∷ begin app false
    ∷ build_one app true
    ∷ complete app
    ∷ []

abbrev last_state : BuildState
last_state = record {
  indeg = (musl, pos 0) ∷ (app, pos 0) ∷ [];
  workers = (musl, finished) ∷ (app, finished) ∷ [];
  busy = 0;
  rebuilt = app ∷ musl ∷ [];
  published_pkg = true;
  image_refreshed = false;
  first_err = none;
  stop = false;
  progress = 2;
  events =
      (musl, status_building)
      ∷ (musl, status_done)
      ∷ (app, status_building)
      ∷ (app, status_done)
      ∷ [];
}

run_here : run_moves job moves (first_state job) ≡ some last_state
unfolding running
run_here = refl

outcome_here : outcome last_state ≡ ok true
unfolding running
outcome_here = refl

last_state-IsQuiet : IsQuiet job last_state
unfolding running
last_state-IsQuiet (acquire name) = ground arith
last_state-IsQuiet (look name) = ground arith
last_state-IsQuiet (begin name c) = ground arith
last_state-IsQuiet (build_one name c) = ground arith
last_state-IsQuiet (complete name) = ground arith

worker-deps_finished_example :
    (elem app (musl ∷ app ∷ []) ≡ true) × (get musl last_state.workers ≡ some finished)
unfolding running
worker-deps_finished_example =
    worker-deps_finished job last_state job-IsJob (moves, run_here) app musl finished refl refl refl

holders-le-parallel_example : holders last_state.workers ≤ 1
holders-le-parallel_example = holders-le-parallel job last_state job-IsJob (moves, run_here)

finished-Rebuilds_example : elem app last_state.rebuilt ≡ true ↔ Rebuilds job app
unfolding running
finished-Rebuilds_example = finished-Rebuilds job last_state job-IsJob (moves, run_here) app refl

quiet-finished_example :
    ((x : Text) (p : Phase)
      → get x last_state.workers ≡ some p
      → (p ≡ finished) ⊎ (p ≡ Phase.stopped))
    × (last_state.first_err ≡ none
        → (x : Text) → elem x job.order ≡ true
        → get x last_state.workers ≡ some finished)
quiet-finished_example =
    quiet-finished job last_state job-IsJob (omega arith) (moves, run_here) last_state-IsQuiet

run_moves-length_example : length moves ≤ 5 * length job.order
run_moves-length_example = run_moves-length job moves last_state job-IsJob run_here

build-finished_example :
    ((x : Text) (s : Phase) → get x last_state.workers ≡ some s → (s ≡ finished) ⊎ (s ≡ stopped))
    × (last_state.first_err ≡ none
        → (x : Text) → IsChosen view_nodes (app ∷ []) x
        → not_buildable (lookup_unit source_project alpine x) ≡ false
        → get x last_state.workers ≡ some finished)
unfolding building_order
build-finished_example =
    build-finished source_project alpine (app ∷ []) view_nodes (musl ∷ app ∷ []) job.plans 1
      last_state view-Distinct order_here (omega arith) (moves, run_here) last_state-IsQuiet
