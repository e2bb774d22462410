-- ===== src/Build/Schedule/Moves.antt =====
-- Which worker can make a move.
use yoe.Common.{some_inj, suc, ◌<◌, ◌≡◌, refl, Bool, Option, none, some, arith, Text, put}
use yoe.Build.Schedule.{
  Job, BuildState, Phase, waiting, admitted, decided, building, ended, acquire, look, begin,
  build_one, complete, step_in, finished, stopped, begin_work, end_work, look_around, finish,
}

module _ (job : Job) (name : Text) (s t : BuildState) where
  pub look_moves :
      (o : Option Phase)
      → step_in job (look name) o s ≡ some t
      → (o ≡ some admitted) × (look_around job name s ≡ t)
  unfolding step_in
  look_moves o h = ground arith

  pub acquire_moves :
      (o : Option Phase)
      → step_in job (acquire name) o s ≡ some t
      → (o ≡ some waiting)
        × (s.busy < job.parallel)
        × (record s { workers = put name admitted s.workers; busy = suc s.busy } ≡ t)
  unfolding step_in
  acquire_moves o h = ground arith

  pub build_one_moves :
      (succeeds : Bool) (o : Option Phase)
      → step_in job (build_one name succeeds) o s ≡ some t
      → (o ≡ some building) × (end_work name succeeds s ≡ t)
  unfolding step_in
  build_one_moves succeeds o h = ground arith

  pub begin_moves :
      (is_cancelled : Bool) (o : Option Phase)
      → step_in job (begin name is_cancelled) o s ≡ some t
      → (b : Bool) × (o ≡ some (decided b)) × (begin_work job name b is_cancelled s ≡ t)
  unfolding step_in
  begin_moves is_cancelled none h = cc
  begin_moves is_cancelled (some waiting) h = cc
  begin_moves is_cancelled (some admitted) h = cc
  begin_moves is_cancelled (some (decided b)) h = (b, refl, some_inj h)
  begin_moves is_cancelled (some building) h = cc
  begin_moves is_cancelled (some (ended b)) h = cc
  begin_moves is_cancelled (some finished) h = cc
  begin_moves is_cancelled (some stopped) h = cc

  pub complete_moves :
      (o : Option Phase)
      → step_in job (complete name) o s ≡ some t
      → (built : Bool) × (o ≡ some (ended built)) × (finish job name built s ≡ t)
  unfolding step_in
  complete_moves none h = cc
  complete_moves (some waiting) h = cc
  complete_moves (some admitted) h = cc
  complete_moves (some (decided b)) h = cc
  complete_moves (some building) h = cc
  complete_moves (some (ended b)) h = (b, refl, some_inj h)
  complete_moves (some finished) h = cc
  complete_moves (some stopped) h = cc
