-- ===== src/Build/Schedule/Progress.antt =====
-- A build ends, and ends with every unit finished unless one of them failed.
use yoe.Common.{
  ltb, Bool-cases, Option-cases, elem-snoc, ◌<◌, ◌≡◌, refl, sym, ap, ◌∙◌, ◌⊎◌, inl, inr, true,
  false, none, some, List, [], ◌∷◌, ◌++◌, arith, text_eq_refl, eq_of_text_eq, text_eq_iff, Text,
  text_eq, get, elem,
}
use yoe.Common.Kahn.Released.{left}
use yoe.Common.Kahn.Ordered.{Ordered}
use yoe.Build.Schedule.{
  Job, BuildState, Phase, waiting, admitted, decided, building, ended, finished, stopped, Move,
  acquire, look, begin, build_one, complete, step, step_in, is_started,
}
use yoe.Build.Schedule.Slots.{holds, holder_of}
use yoe.Build.Schedule.Tracks.{IsJob, waits, is_finished}
use yoe.Build.Schedule.Sound.{Sound, is_some_error}
use yoe.Build.Schedule.Safety.{Reached, Reached-Sound, finished_of}

-- No worker can move: `wg.Wait` returns.
abbrev pub IsQuiet : Job → BuildState → Type 0
IsQuiet job t = (m : Move) → step job m t ≡ none

left_nothing :
    (ds done : List Text) → ((y : Text) → elem y ds ≡ true → elem y done ≡ true) → left ds done ≡ 0
unfolding left elem
left_nothing [] done h = refl
left_nothing (d ∷ ds) done h =
    ground (arith, h d, text_eq_refl d, left_nothing ds done (λ y m. h y (ground arith)))

module _ (job : Job) (t : BuildState) (quiet : IsQuiet job t) where
  holder_moves : (x : Text) (p : Phase) → get x t.workers ≡ some p → holds p ≡ 1 → ⊥
  unfolding step step_in
  holder_moves x waiting at h = absurd (omega (arith, h))
  holder_moves x admitted at h = cc (rw at at (quiet (look x)))
  holder_moves x (decided b) at h = cc (rw at at (quiet (begin x true)))
  holder_moves x building at h = cc (rw at at (quiet (build_one x true)))
  holder_moves x (ended b) at h = cc (rw at at (quiet (complete x)))
  holder_moves x finished at h = absurd (omega (arith, h))
  holder_moves x stopped at h = absurd (omega (arith, h))

  module _ (done : List Text) (i : Sound job done t) (some_slot : 0 < job.parallel) where
    no_slot_taken : ltb t.busy job.parallel ≡ true
    no_slot_taken = elim (Bool-cases (ltb t.busy job.parallel)) [
      | inl e ↦ e
      | inr e ↦
          let (x, p, at, held) =
            holder_of t.workers (ground (arith, i.slots, some_slot, e)) i.keys in
          absurd (holder_moves x p at held)
    ]

    returned : (x : Text) (p : Phase) → get x t.workers ≡ some p → (p ≡ finished) ⊎ (p ≡ stopped)
    unfolding step step_in
    returned x waiting at = absurd (cc (rw (at, no_slot_taken) at (quiet (acquire x))))
    returned x admitted at = absurd (holder_moves x admitted at refl)
    returned x (decided b) at = absurd (holder_moves x (decided b) at refl)
    returned x building at = absurd (holder_moves x building at refl)
    returned x (ended b) at = absurd (holder_moves x (ended b) at refl)
    returned x finished at = inl refl
    returned x stopped at = inr refl

    module _ (no_error : t.first_err ≡ none) where
      going : t.stop ≡ false
      going = i.halted ∙ ap is_some_error no_error

      started_finished :
          (x : Text) → is_started (get x t.workers) ≡ true → get x t.workers ≡ some finished
      started_finished x h = elim (Option-cases (get x t.workers)) [
        | inl e ↦ cc
        | inr (p, e) ↦ elim (returned x p e) [
          | inl f ↦ e ∙ ap some f
          | inr s ↦
              let was_stopped = i.choices.fits x stopped (e ∙ ap some s) in cc (was_stopped, going)
        ]
      ]

      all_done :
          (xs seen : List Text)
          → Ordered (waits job) seen xs
          → ((x : Text) → elem x xs ≡ true → elem x job.order ≡ true)
          → ((x : Text) → elem x seen ≡ true → elem x done ≡ true)
          → (x : Text) → elem x xs ≡ true
          → elem x done ≡ true
      unfolding elem
      all_done [] seen o k before x m = cc
      all_done (z ∷ xs) seen o k before x m =
          let z_in : elem z job.order ≡ true = k z (ground (arith, text_eq_refl z)) in
          let at = started_finished z (
            i.tracks.launched going z z_in
              (left_nothing (waits job z) done (λ y n. before y (o.0 y n)))) in
          let z_done : elem z done ≡ true = sym (i.tracks.marked z) ∙ ap is_finished at in
          elim (Bool-cases (text_eq z x)) [
            | inl e ↦ rw (← eq_of_text_eq z x e) z_done
            | inr e ↦
                all_done xs (seen ++ (z ∷ [])) o.1 (λ y n. k y (ground arith))
                  (λ y n. ground (arith, before y, elem-snoc y z seen, text_eq_iff z y, z_done)) x
                  (rw e at m)
          ]

-- When no worker of a job with a build order can move any more, all workers have returned. If no unit failed and the build was not
-- cancelled, every unit of the build is then finished. The build may run at least one unit at once.
pub quiet-finished :
    (job : Job) (t : BuildState)
    → IsJob job
    → 0 < job.parallel
    → Reached job t
    → IsQuiet job t
    → ((x : Text) (p : Phase) → get x t.workers ≡ some p → (p ≡ finished) ⊎ (p ≡ stopped))
      × (t.first_err ≡ none
          → (x : Text) → elem x job.order ≡ true
          → get x t.workers ≡ some finished)
unfolding elem
quiet-finished job t g slot r quiet =
    let (done, i) = Reached-Sound job t g r in
    (
      returned job t quiet done i slot,
      λ e x m. finished_of (get x t.workers) (
          i.tracks.marked x
          ∙ all_done job t quiet done i slot e job.order [] g.ordered (λ y n. n)
              (λ y n. absurd (cc)) x m),
    )
