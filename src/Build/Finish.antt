-- ===== src/Build/Finish.antt =====
-- A whole build: the order that `BuildUnits` makes, and the workers that build it.
use yoe.Common.{
  ok, Distinct, ℕ, ◌<◌, ◌≡◌, subst, ◌⊎◌, false, none, some, List, Text, Dict, get, keys_of_dict,
}
use yoe.Starlark.Units.{not_buildable}
use yoe.Starlark.Projects.{Project, lookup_unit}
use yoe.Resolve.Dag.{Node, unit_source}
use yoe.Build.Order.{build_order}
use yoe.Build.Order.Chosen.{IsChosen}
use yoe.Build.Order.Outcome.{IsBuildOrder, IsBuild, build_order-IsBuild}
use yoe.Build.Plan.{UnitPlan}
use yoe.Build.Schedule.{Job, BuildState, Phase, finished, stopped}
use yoe.Build.Schedule.Tracks.{IsJob}
use yoe.Build.Schedule.Safety.{Reached}
use yoe.Build.Schedule.Progress.{IsQuiet, quiet-finished}

-- The job of an order, its plans and the number of units that may be built at once.
abbrev pub job_of : Dict Node → List Text → Dict UnitPlan → ℕ → Job
job_of nodes order plans parallel = record {
  nodes = nodes;
  order = order;
  plans = plans;
  parallel = parallel;
}

IsBuildOrder-IsJob :
    (p : Project) (distro : Text) (names : List Text) (nodes : Dict Node) (order : List Text)
    (plans : Dict UnitPlan) (parallel : ℕ)
    → IsBuildOrder p distro names nodes order
    → IsJob (job_of nodes order plans parallel)
IsBuildOrder-IsJob p distro names nodes order plans parallel o = record {
  distinct = o.distinct;
  ordered = o.ordered;
  mirrored = o.counted.mirrored;
}

-- Where no name stands twice among the units of a project and `BuildUnits` takes up a build, all
-- workers have returned once none of them can move, whatever the plans are and however many units may
-- be built at once, one at least. Unless a unit failed or the build was cancelled, a unit is then finished if it was
-- wanted: it is in the graph, it is named or needed by a named one where units are named, and the
-- machine can boot it.
pub build-finished :
    (p : Project) (distro : Text) (names : List Text) (nodes : Dict Node) (order : List Text)
    (plans : Dict UnitPlan) (parallel : ℕ) (t : BuildState)
    → Distinct (keys_of_dict (unit_source p distro))
    → build_order p distro names ≡ ok (nodes, order)
    → 0 < parallel
    → Reached (job_of nodes order plans parallel) t
    → IsQuiet (job_of nodes order plans parallel) t
    → ((x : Text) (s : Phase) → get x t.workers ≡ some s → (s ≡ finished) ⊎ (s ≡ stopped))
      × (t.first_err ≡ none
          → (x : Text) → IsChosen nodes names x
          → not_buildable (lookup_unit p distro x) ≡ false
          → get x t.workers ≡ some finished)
build-finished p distro names nodes order plans parallel t d b slot r quiet =
    let o : IsBuildOrder p distro names nodes order =
      subst (IsBuild p distro names) b (build_order-IsBuild p distro names d) in
    let j = IsBuildOrder-IsJob p distro names nodes order plans parallel o in
    let (returned, all) = quiet-finished (job_of nodes order plans parallel) t j slot r quiet in
    (returned, λ no_error x wanted fits. all no_error x ((o.holds x).1 (wanted, fits)))
