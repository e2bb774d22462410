-- ===== src/Common/Worklist.antt =====
-- The worklist loop that `RuntimeClosure` and `appendRuntimeClosureOfDeps` (internal/resolve) share:
-- a queue that is read from the front while names are appended, with a set of the names seen.
pub mod Step
pub mod Reach
use Prim.Native.Nat.{ℕ, zero, suc}
use mathlib.Core.Bool.{true, false}
use mathlib.Core.Option.{Option, none, some}
use mathlib.Core.List.{List, [], ◌∷◌, ◌++◌, foldl}
use yoe.Common.Tests.{if◌then◌else◌}
use yoe.Common.Texts.{Text}
use yoe.Common.Dicts.{elem}

-- `pending` is the part of the queue that is still to be expanded.
pub record Search : Type 0 where
  pub queue : List Text
  pub pending : List Text

-- `pick` names the unit that a dependency leads to, if it is one to visit; `deps` are the
-- dependencies of a name.
module _ (pick : Text → Option Text) (deps : Text → List Text) where
  unfoldable pub visit : Search → Text → Search
  visit s dep = elim (pick dep) [
    | none ↦ s
    | some x ↦
        if elem x s.queue
        then s
        else record { queue = s.queue ++ (x ∷ []); pending = s.pending ++ (x ∷ []) }
  ]

  unfoldable pub visit_all : Search → List Text → Search
  visit_all s [] = s
  visit_all s (d ∷ ds) = visit_all (visit s d) ds

  -- One round: `x` has left the front of what is pending.
  unfoldable pub expand : List Text → Text → List Text → Search
  expand queue x rest = visit_all (record { queue = queue; pending = rest }) (deps x)

  -- The queue at the end of the loop; `none` where the fuel ran out.
  unfoldable pub run : ℕ → Search → Option (List Text)
  run zero s = elim s.pending [ [] ↦ some s.queue | _ ∷ _ ↦ none ]
  run (suc fuel) s = elim s.pending [
    | [] ↦ some s.queue
    | x ∷ rest ↦ run fuel (expand s.queue x rest)
  ]
