-- ===== src/Starlark/Topo/Order.antt =====
-- The order that `topoOrder` returns.
use yoe.Common.{
  ltb, ◌==◌, if◌then◌else◌, le_of_ltb, Bool-cases, length, length-append, List-cases, Distinct, ℤ,
  is_zero, one_if, count, count-append, elem-count, count-of_Distinct, Distinct-of_count,
  length-le_of_count, sort_strings, count-sort_strings, ◌≡◌, refl, sym, ap, ◌∙◌, inl, inr, Bool,
  true, false, not, ◌&&◌, some, List, [], ◌∷◌, ◌++◌, append-nil, arith, eq_of_text_eq, Text,
  text_eq, length-keys, Dict, elem, keys_of_dict,
}
use yoe.Common.Kahn.{names_with}
use yoe.Common.Kahn.Released.{left, left-positive}
use yoe.Common.Kahn.Ordered.{Ordered}
use yoe.Starlark.Topo.{list_at, stuck_names, append_stuck, topo_order}
use yoe.Starlark.Topo.Edges.{waits_for, elem-waits_for, counted_graph, empty_graph}
use yoe.Starlark.Topo.Waves.{Live, first-Live, emit_waves-Live}

abbrev pub is_other : Dict (List Text) → Text → Text → Bool
is_other deps x d = elem d (keys_of_dict deps) && not (text_eq d x)

-- The other units of the map that a unit depends on.
unfoldable pub edges_to : Dict (List Text) → Text → List Text → List Text
edges_to deps x [] = []
edges_to deps x (d ∷ ds) =
    let rest = edges_to deps x ds in if is_other deps x d then d ∷ rest else rest

abbrev pub edges_of : Dict (List Text) → Text → List Text
edges_of deps x = edges_to deps x (list_at deps x)

-- A front in which each unit stands behind all that it depends on, and a back of units each of which
-- depends on another one of the back, so that none of these can be ordered.
pub record IsTopological (deps : Dict (List Text)) (front back : List Text) : Type 0 where
  pub distinct : Distinct (front ++ back)
  pub complete : (x : Text) → elem x (front ++ back) ≡ elem x (keys_of_dict deps)
  pub ordered : Ordered (edges_of deps) [] front
  pub waits :
      (x : Text)
      → elem x back ≡ true
      → (y : Text) × (elem y (edges_of deps x) ≡ true) × (elem y back ≡ true)

elem-edges_to :
    (deps : Dict (List Text)) (x : Text) (ds : List Text) (y : Text)
    → elem y (edges_to deps x ds) ≡ (elem y ds && is_other deps x y)
unfolding edges_to elem
elem-edges_to deps x [] y = refl
elem-edges_to deps x (d ∷ ds) y = elim (Bool-cases (is_other deps x d)) [
  | inl e ↦ rw e (ground (arith, elem-edges_to deps x ds y, e, eq_of_text_eq d y))
  | inr e ↦ rw e (ground (arith, elem-edges_to deps x ds y, e, eq_of_text_eq d y))
]

elem-edges_of :
    (deps : Dict (List Text)) (x y : Text) → elem y (waits_for deps x) ≡ elem y (edges_of deps x)
elem-edges_of deps x y =
    elem-waits_for deps x y ∙ ground (arith, elem-edges_to deps x (list_at deps x) y)

Ordered-same :
    (f g : Text → List Text)
    → ((x y : Text) → elem y (f x) ≡ elem y (g x))
    → (xs seen : List Text) → Ordered f seen xs
    → Ordered g seen xs
Ordered-same f g e [] seen o = tt
Ordered-same f g e (x ∷ xs) seen o =
    (λ y m. o.0 y (e x y ∙ m), Ordered-same f g e xs (seen ++ (x ∷ [])) o.1)

count-stuck_names :
    (x : Text) (emitted names : List Text)
    → count x (stuck_names emitted names) ≡ (if elem x emitted then 0 else count x names)
unfolding stuck_names count
count-stuck_names x emitted [] = ground arith
count-stuck_names x emitted (n ∷ names) =
    let same : text_eq n x ≡ true → elem n emitted ≡ elem x emitted =
      λ e. ap (λ z. elem z emitted) (eq_of_text_eq n x e) in
    elim (Bool-cases (elem n emitted)) [
      | inl f ↦ rw f (ground (arith, count-stuck_names x emitted names, same, f))
      | inr f ↦ rw f (ground (arith, count-stuck_names x emitted names, same, f))
    ]

module _ (deps : Dict (List Text)) (distinct : Distinct (keys_of_dict deps)) (front : List Text)
    (after : Dict ℤ) (l : Live deps distinct [] front [] after) where
  placed :
      (x : Text)
      → count x front ≡ one_if (elem x (keys_of_dict deps) && (left (waits_for deps x) front == 0))
  unfolding count
  placed x = ground (arith, l.counted x)

  rest_of : List Text
  rest_of = sort_strings (stuck_names front (keys_of_dict deps))

  count-rest_of :
      (x : Text) → count x rest_of ≡ one_if (elem x (keys_of_dict deps) && not (elem x front))
  unfolding rest_of
  count-rest_of x = ground (
    arith,
    count-sort_strings x (stuck_names front (keys_of_dict deps)),
    count-stuck_names x front (keys_of_dict deps),
    count-of_Distinct x (keys_of_dict deps) distinct,
  )

  IsTopological-rest : Ordered (waits_for deps) [] front → IsTopological deps front rest_of
  IsTopological-rest o = record {
    distinct = Distinct-of_count (front ++ rest_of) (λ x.
        ground
          (arith, count-append x front rest_of, placed x, count-rest_of x, elem-count x front));
    complete = λ x. ground (
      arith,
      elem-count x (front ++ rest_of),
      count-append x front rest_of,
      placed x,
      count-rest_of x,
      elem-count x front,
    );
    ordered = Ordered-same (waits_for deps) (edges_of deps) (elem-edges_of deps) front [] o;
    waits = λ x m.
        let (y, d, n) = left-positive (waits_for deps x) front (
          ground (arith, elem-count x rest_of, count-rest_of x, placed x, elem-count x front, m)) in
        let known : elem y (keys_of_dict deps) ≡ true =
          ground (arith, elem-waits_for deps x y, d) in
        (
          y,
          sym (elem-edges_of deps x y) ∙ d,
          ground (arith, elem-count y rest_of, count-rest_of y, known, n),
        );
  }

  -- Where all units are emitted, nothing is stuck.
  append_stuck-rest : append_stuck deps front ≡ front ++ rest_of
  unfolding append_stuck rest_of
  append_stuck-rest = elim (Bool-cases (ltb (length front) (length deps))) [
    | inl e ↦ rw e refl
    | inr e ↦ rw e (sym (append-nil front) ∙ ap (λ r. front ++ r) (sym (no_rest e)))
  ]
    where
      no_rest : ltb (length front) (length deps) ≡ false → rest_of ≡ []
      no_rest e = elim (List-cases rest_of) [
        | inl f ↦ f
        | inr (x, xs, f) ↦ absurd (
            omega (
              arith,
              ap length f,
              length-append front rest_of,
              le_of_ltb _ _ e,
              length-keys deps,
              length-le_of_count (front ++ rest_of) (keys_of_dict deps) (λ z. ground (
                arith,
                count-append z front rest_of,
                placed z,
                count-rest_of z,
                elem-count z front,
                count-of_Distinct z (keys_of_dict deps) distinct,
              )),
            ))
      ]

-- `topoOrder` of a map of dependencies always ends. It returns every unit of the map once: first units
-- that stand behind all that they depend on within the map, themselves left aside, and then, if any,
-- units each of which depends on another one of them.
pub topo_order-IsTopological :
    (deps : Dict (List Text))
    → Distinct (keys_of_dict deps)
    → (front back : List Text) × (topo_order deps ≡ some (front ++ back))
      × IsTopological deps front back
unfolding topo_order counted_graph empty_graph
topo_order-IsTopological deps distinct =
    let (front, after, r, l, o) =
      emit_waves-Live deps distinct (length deps) (counted_graph deps).indeg
        (sort_strings (names_with is_zero (counted_graph deps).indeg)) [] (first-Live deps distinct)
        tt (omega arith) in
    (
      front,
      rest_of deps distinct front after l,
      rw (r, topo_order) (ap some (append_stuck-rest deps distinct front after l)),
      IsTopological-rest deps distinct front after l o,
    )
