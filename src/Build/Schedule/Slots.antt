-- ===== src/Build/Schedule/Slots.antt =====
-- The slots of the semaphore, and what `launchReady` starts.
use yoe.Common.{
  if◌then◌else◌, Bool-cases, if_elim, Distinct, Distinct-put, ℤ, is_zero, ℕ, ◌+◌, ◌<◌, ◌≡◌, refl,
  ◌∙◌, ◌⊎◌, inl, inr, true, false, not, ◌&&◌, Option, none, some, List, [], ◌∷◌, arith,
  text_eq_refl, eq_of_text_eq, text_eq_iff, Text, text_eq, get-put, Dict, get, put, elem,
  keys_of_dict,
}
use yoe.Common.Kahn.{degree}
use yoe.Build.Schedule.{
  Phase, waiting, admitted, decided, building, ended, finished, stopped, is_started, launch,
}

-- A worker in this phase has a slot.
abbrev pub holds : Phase → ℕ
holds waiting = 0
holds admitted = 1
holds (decided _) = 1
holds building = 1
holds (ended _) = 1
holds finished = 0
holds stopped = 0

abbrev pub holds_at : Option Phase → ℕ
holds_at none = 0
holds_at (some p) = holds p

-- How many workers have a slot.
unfoldable pub holders : Dict Phase → ℕ
holders [] = 0
holders ((_, p) ∷ workers) = holds p + holders workers

pub holders-put :
    (name : Text) (q : Phase) (workers : Dict Phase)
    → holders (put name q workers) + holds_at (get name workers) ≡ holders workers + holds q
unfolding holders put get
holders-put name q [] = omega arith
holders-put name q ((j, p) ∷ workers) = elim (Bool-cases (text_eq j name)) [
  | inl e ↦ rw e (omega arith)
  | inr e ↦ rw e (omega (arith, holders-put name q workers))
]

-- `launchReady` starts a worker for each name of the list that waits for nothing.
pub get-launch :
    (indeg : Dict ℤ) (names : List Text) (workers : Dict Phase) (x : Text)
    → get x (launch indeg workers names) ≡ (
        if not (is_started (get x workers)) && elem x names && is_zero (degree indeg x)
        then some waiting
        else get x workers)
unfolding launch elem
get-launch indeg [] workers x = ground arith
get-launch indeg (name ∷ names) workers x =
    elim (Bool-cases (not (is_started (get name workers)) && is_zero (degree indeg name))) [
      | inl e ↦ rw e (
          rw (get-launch indeg names (put name waiting workers) x, get-put name x waiting workers)
            (elim (Bool-cases (text_eq name x)) [
              | inl same ↦ rw same (ground (arith, eq_of_text_eq name x same))
              | inr other ↦ rw other refl
            ]))
      | inr e ↦ rw e (
          rw (get-launch indeg names workers x) (elim (Bool-cases (text_eq name x)) [
            | inl same ↦ rw same (ground (arith, eq_of_text_eq name x same))
            | inr other ↦ rw other refl
          ]))
    ]

pub holders-launch :
    (indeg : Dict ℤ) (names : List Text) (workers : Dict Phase)
    → holders (launch indeg workers names) ≡ holders workers
unfolding launch
holders-launch indeg [] workers = refl
holders-launch indeg (name ∷ names) workers =
    elim (Bool-cases (not (is_started (get name workers)) && is_zero (degree indeg name))) [
      | inl e ↦ rw e (
          holders-launch indeg names (put name waiting workers)
          ∙ ground (arith, holders-put name waiting workers))
      | inr e ↦ rw e (holders-launch indeg names workers)
    ]

pub Distinct-launch :
    (indeg : Dict ℤ) (names : List Text) (workers : Dict Phase)
    → Distinct (keys_of_dict workers)
    → Distinct (keys_of_dict (launch indeg workers names))
unfolding launch
Distinct-launch indeg [] workers d = d
Distinct-launch indeg (name ∷ names) workers d = Distinct-launch indeg names _ (
    if_elim (λ (ws : Dict Phase). Distinct (keys_of_dict ws))
      (not (is_started (get name workers)) && is_zero (degree indeg name))
      (λ e. Distinct-put name waiting workers d) (λ e. d))

-- A worker that has a slot.
pub holder_of :
    (workers : Dict Phase)
    → 0 < holders workers
    → Distinct (keys_of_dict workers)
    → (x : Text) × (p : Phase) × (get x workers ≡ some p) × (holds p ≡ 1)
unfolding holders get keys_of_dict elem
holder_of [] h d = absurd (omega (arith, h))
holder_of ((j, p) ∷ workers) h d = elim (holds-cases p) [
  | inl e ↦ (j, p, rw (text_eq_refl j) refl, e)
  | inr e ↦
      let (x, q, at, held) = holder_of workers (omega (arith, h, e)) d.1 in
      (
        x,
        q,
        elim (Bool-cases (text_eq j x)) [
          | inl same ↦ absurd (twice j x same workers q d.0 at)
          | inr other ↦ rw other at
        ],
        held,
      )
]
  where
    holds-cases : (p : Phase) → (holds p ≡ 1) ⊎ (holds p ≡ 0)
    holds-cases waiting = inr refl
    holds-cases admitted = inl refl
    holds-cases (decided _) = inl refl
    holds-cases building = inl refl
    holds-cases (ended _) = inl refl
    holds-cases finished = inr refl
    holds-cases stopped = inr refl

    twice :
        (j x : Text)
        → text_eq j x ≡ true
        → (m : Dict Phase) (q : Phase) → elem j (keys_of_dict m) ≡ false
        → get x m ≡ some q
        → ⊥
    twice j x same [] q a at = cc
    twice j x same ((i, p) ∷ m) q a at = elim (Bool-cases (text_eq i x)) [
      | inl e ↦
          absurd (ground (arith, a, text_eq_iff i x, text_eq_iff j x, text_eq_iff i j, e, same))
      | inr e ↦ twice j x same m q (ground (arith, a)) (rw e at at)
    ]
