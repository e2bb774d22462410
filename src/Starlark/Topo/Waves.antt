-- ===== src/Starlark/Topo/Waves.antt =====
-- What a wave of `topoOrder` keeps.
use yoe.Common.{
  Bool-cases, length, length-append, Distinct, ℤ, is_zero, pos, count, count-append, count-snoc,
  elem-count, count-of_Distinct, length-le_of_count, sort_strings, count-sort_strings, ℕ, zero, suc,
  ◌+◌, ◌≤◌, ◌≡◌, refl, ap, ◌∙◌, inl, inr, Bool, true, some, List, [], ◌∷◌, ◌++◌, append-nil,
  append_assoc, arith, text_eq_refl, Text, length-keys, Dict, elem, keys_of_dict,
}
use yoe.Common.Kahn.{degree, count_down, names_with}
use yoe.Common.Kahn.Released.{
  left, left-nil, left-zero, is_zero-pos, Released, Released-down, Released-next,
}
use yoe.Common.Kahn.Ordered.{Ordered, Ordered-snoc}
use yoe.Common.Kahn.Names.{count-names_with}
use yoe.Starlark.Topo.{Wave, list_at, free_one, free_all, free_wave, emit_waves}
use yoe.Starlark.Topo.Edges.{waits_for, counted_graph, counted_graph-IsCounted, nothing_to_wait_for}

module _ (deps : Dict (List Text)) (distinct : Distinct (keys_of_dict deps)) where
  abbrev has : Text → Bool
  has x = elem x (keys_of_dict deps)

  abbrev back : Text → List Text
  back x = list_at (counted_graph deps).rdeps x

  mirrored : (x y : Text) → count x (back y) ≡ count y (waits_for deps x)
  unfolding count
  mirrored x y =
      let i = counted_graph-IsCounted deps distinct in
      elim (Bool-cases (has x)) [
        | inl e ↦ i.back x y ∙ rw e refl
        | inr e ↦ i.back x y ∙ rw (e, nothing_to_wait_for deps x e) refl
      ]

  back_has : (x y : Text) → elem x (back y) ≡ true → has x ≡ true
  unfolding count
  back_has x y m = elim (Bool-cases (has x)) [
    | inl e ↦ e
    | inr e ↦
        let none_here : count x (back y) ≡ 0 =
          mirrored x y ∙ rw (nothing_to_wait_for deps x e) refl in
        absurd (ground (arith, elem-count x (back y), none_here, m))
  ]

  abbrev pub Live : List Text → List Text → List Text → Dict ℤ → Type 0
  Live = Released has (waits_for deps) back

  free_one-Live :
      (r : Text) (rs done rest : List Text) (w : Wave)
      → has r ≡ true
      → Live (r ∷ rs) done (rest ++ w.next) w.indeg
      → Live rs done (rest ++ (free_one w r).next) (free_one w r).indeg
  unfolding free_one
  free_one-Live r rs done rest w h l =
      Released-down has (waits_for deps) back r rs done (rest ++ w.next) w.indeg l _ h (λ x.
        elim (Bool-cases (is_zero (degree (count_down w.indeg r) r))) [
          | inl e ↦ rw e (
              ground (
                arith,
                count-append x rest (w.next ++ (r ∷ [])),
                count-append x rest w.next,
                count-snoc x r w.next,
              ))
          | inr e ↦ rw e (omega arith)
        ])

  free_all-Live :
      (rs done rest : List Text) (w : Wave)
      → ((r : Text) → elem r rs ≡ true → has r ≡ true)
      → Live rs done (rest ++ w.next) w.indeg
      → Live [] done (rest ++ (free_all w rs).next) (free_all w rs).indeg
  unfolding free_all elem
  free_all-Live [] done rest w k l = l
  free_all-Live (r ∷ rs) done rest w k l =
      free_all-Live rs done rest (free_one w r) (λ x m. k x (ground arith))
        (free_one-Live r rs done rest w (k r (ground (arith, text_eq_refl r))) l)

  -- A wave leaves the pool, and the next one is in it.
  free_wave-Live :
      (ready done : List Text) (w : Wave)
      → Live [] done (ready ++ w.next) w.indeg
      → Ordered (waits_for deps) [] done
      → Live []
          (done ++ ready)
          (free_wave (counted_graph deps).rdeps w ready).next
          (free_wave (counted_graph deps).rdeps w ready).indeg
        × Ordered (waits_for deps) [] (done ++ ready)
  unfolding free_wave count
  free_wave-Live [] done w l o = rw (append-nil done) (l, o)
  free_wave-Live (name ∷ ready) done w l o =
      let zero_left : left (waits_for deps name) done ≡ 0 =
        ground (arith, l.counted name, text_eq_refl name) in
      let next =
        Released-next has (waits_for deps) back name done (name ∷ (ready ++ w.next))
          (ready ++ w.next) w.indeg (λ y. mirrored y name) l (λ y. refl) in
      let freed =
        free_all-Live (back name) (done ++ (name ∷ [])) ready w (λ r m. back_has r name m) next in
      rw (← append_assoc done (name ∷ []) ready) (
        free_wave-Live ready (done ++ (name ∷ [])) (free_all w (back name)) freed (
          Ordered-snoc (waits_for deps) done [] name o
            (left-zero (waits_for deps name) done zero_left)))

  room :
      (done pool : List Text) (indeg : Dict ℤ)
      → Live [] done pool indeg
      → length done + length pool ≤ length deps
  room done pool indeg l = omega (
    arith,
    length-append done pool,
    length-keys deps,
    length-le_of_count (done ++ pool) (keys_of_dict deps) (λ x. ground (
      arith,
      l.counted x,
      count-append x done pool,
      count-of_Distinct x (keys_of_dict deps) distinct,
    )),
  )

  pub emit_waves-Live :
      (fuel : ℕ) (indeg : Dict ℤ) (ready done : List Text)
      → Live [] done ready indeg
      → Ordered (waits_for deps) [] done
      → length deps ≤ length done + fuel
      → (out : List Text) × (after : Dict ℤ) × (emit_waves fuel
            (counted_graph deps).rdeps
            indeg
            ready
            done
          ≡ some out)
        × Live [] out [] after
        × Ordered (waits_for deps) [] out
  unfolding emit_waves count
  emit_waves-Live zero indeg [] done l o n = (done, indeg, refl, l, o)
  emit_waves-Live zero indeg (x ∷ xs) done l o n =
      absurd (omega (arith, room done (x ∷ xs) indeg l))
  emit_waves-Live (suc fuel) indeg [] done l o n = (done, indeg, refl, l, o)
  emit_waves-Live (suc fuel) indeg (x ∷ xs) done l o n =
      let w = free_wave (counted_graph deps).rdeps (record { indeg = indeg; next = [] }) (x ∷ xs) in
      let (live, ordered) =
        free_wave-Live (x ∷ xs) done (record { indeg = indeg; next = [] })
          (rw (append-nil (x ∷ xs)) l) o in
      emit_waves-Live fuel w.indeg (sort_strings w.next) (done ++ (x ∷ xs))
        (record {
          waiting = live.waiting;
          counted = λ z. ground (arith, live.counted z, count-sort_strings z w.next);
        })
        ordered (omega (arith, length-append done (x ∷ xs)))

  -- The counts before the first wave.
  pub first-Live :
      Live [] []
        (sort_strings (names_with is_zero (counted_graph deps).indeg))
        (counted_graph deps).indeg
  unfolding count
  first-Live =
      let i = counted_graph-IsCounted deps distinct in
      record {
        waiting = λ x h. i.degrees x ∙ rw h (ap pos (omega (arith, left-nil (waits_for deps x))));
        counted = λ x. elim (Bool-cases (has x)) [
          | inl e ↦
              let same : degree (counted_graph deps).indeg x ≡ pos (length (waits_for deps x)) =
                i.degrees x ∙ rw e refl in
              let none_left = ap is_zero same ∙ is_zero-pos (length (waits_for deps x)) in
              ground (
                arith,
                e,
                none_left,
                i.keys x,
                left-nil (waits_for deps x),
                count-sort_strings x (names_with is_zero (counted_graph deps).indeg),
                count-names_with is_zero (counted_graph deps).indeg x i.distinct,
              )
          | inr e ↦ ground (
            arith,
            e,
            i.keys x,
            count-sort_strings x (names_with is_zero (counted_graph deps).indeg),
            count-names_with is_zero (counted_graph deps).indeg x i.distinct,
          )
        ];
      }
