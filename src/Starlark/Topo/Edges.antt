-- ===== src/Starlark/Topo/Edges.antt =====
-- The edges that `topoOrder` counts.
use yoe.Common.{
  if◌then◌else◌, Bool-cases, length, Distinct, elem-snoc_self, elem-snoc, Distinct-put,
  elem-keys_put, next_int, pos, one_if, count, count-snoc, ℕ, suc, ◌+◌, ◌≡◌, refl, ap, ◌∙◌, subst,
  inl, inr, true, false, not, ◌&&◌, List, [], ◌∷◌, ◌++◌, append-nil, append_assoc, arith,
  text_eq_refl, eq_of_text_eq, text_eq_iff, Text, text_eq, get-put, keys-put, Dict, get, put, elem,
  keys_of_dict,
}
use yoe.Common.Kahn.{degree}
use yoe.Starlark.Topo.{Graph, list_at, is_edge, add_edge, count_edges, count_all}

no_deps : (m : Dict (List Text)) (x : Text) → elem x (keys_of_dict m) ≡ false → list_at m x ≡ []
unfolding keys_of_dict get elem
no_deps [] x h = refl
no_deps ((j, v) ∷ m) x h = elim (Bool-cases (text_eq j x)) [
  | inl e ↦ cc (rw e at h)
  | inr e ↦ rw e (no_deps m x (rw e at h))
]

module _ (name d : Text) (g : Graph) where
  add_edge-degree :
      (n : ℕ) → degree g.indeg name ≡ pos n → degree (add_edge name d g).indeg name ≡ pos (suc n)
  unfolding add_edge
  add_edge-degree n h =
      rw (get-put name name (next_int (degree g.indeg name)) g.indeg, text_eq_refl name) (rw h refl)

  add_edge-elsewhere :
      (x : Text) → text_eq name x ≡ false → degree (add_edge name d g).indeg x ≡ degree g.indeg x
  unfolding add_edge
  add_edge-elsewhere x f = rw (get-put name x (next_int (degree g.indeg name)) g.indeg, f) refl

  add_edge-back :
      (x y : Text) (new : List Text)
      → count x (list_at (add_edge name d g).rdeps y) + (if text_eq name x then count y new else 0)
        ≡ count x (list_at g.rdeps y)
          + (if text_eq name x then one_if (text_eq d y) + count y new else 0)
  unfolding add_edge
  add_edge-back x y new =
      rw (get-put d y (list_at g.rdeps d ++ (name ∷ [])) g.rdeps) (elim (Bool-cases (text_eq d y)) [
        | inl e ↦
            rw (e, eq_of_text_eq d y e) (ground (arith, count-snoc x name (list_at g.rdeps y)))
        | inr e ↦ rw e (ground arith)
      ])

  add_edge-keys :
      elem name (keys_of_dict g.indeg) ≡ true
      → keys_of_dict (add_edge name d g).indeg ≡ keys_of_dict g.indeg
  unfolding add_edge
  add_edge-keys h = keys-put name (next_int (degree g.indeg name)) g.indeg h

module _ (deps : Dict (List Text)) where
  -- Each other unit of the closure that a list names, once.
  pub picked : Text → List Text → List Text → List Text
  picked name counted [] = []
  picked name counted (d ∷ ds) = elim (is_edge deps name d && not (elem d counted)) [
    | true ↦ d ∷ picked name (d ∷ counted) ds
    | false ↦ picked name counted ds
  ]

  -- What a unit waits for.
  abbrev pub waits_for : Text → List Text
  waits_for x = picked x [] (list_at deps x)

  pub nothing_to_wait_for : (x : Text) → elem x (keys_of_dict deps) ≡ false → waits_for x ≡ []
  unfolding picked
  nothing_to_wait_for x h = rw (no_deps deps x h) refl

  elem-picked :
      (name : Text) (counted ds : List Text) (y : Text)
      → elem y (picked name counted ds) ≡ (elem y ds && is_edge deps name y && not (elem y counted))
  unfolding picked elem
  elem-picked name counted [] y = refl
  elem-picked name counted (d ∷ ds) y =
      elim (Bool-cases (is_edge deps name d && not (elem d counted))) [
        | inl e ↦
            rw (e, picked)
              (ground
                (arith, elem-picked name (d ∷ counted) ds y, e, text_eq_iff d y, eq_of_text_eq d y))
        | inr e ↦
            rw (e, picked) (ground (arith, elem-picked name counted ds y, e, eq_of_text_eq d y))
      ]

  pub elem-waits_for :
      (x y : Text) → elem y (waits_for x) ≡ (elem y (list_at deps x) && is_edge deps x y)
  unfolding elem
  elem-waits_for x y = elem-picked x [] (list_at deps x) y ∙ ground arith

  -- What the loop over the dependencies of `name` adds.
  record Adds (name : Text) (new : List Text) (g h : Graph) : Type 0 where
    here : (n : ℕ) → degree g.indeg name ≡ pos n → degree h.indeg name ≡ pos (n + length new)
    elsewhere : (x : Text) → text_eq name x ≡ false → degree h.indeg x ≡ degree g.indeg x
    back :
        (x y : Text)
        → count x (list_at h.rdeps y)
          ≡ count x (list_at g.rdeps y) + (if text_eq name x then count y new else 0)
    keys : elem name (keys_of_dict g.indeg) ≡ true → keys_of_dict h.indeg ≡ keys_of_dict g.indeg

  count_edges-Adds :
      (name : Text) (counted : List Text) (g : Graph) (ds : List Text)
      → Adds name (picked name counted ds) g (count_edges deps name counted g ds)
  unfolding picked count_edges count
  count_edges-Adds name counted g [] = record {
    here = λ n h. h ∙ ap pos (omega arith);
    elsewhere = λ x e. refl;
    back = λ x y. ground arith;
    keys = λ h. refl;
  }
  count_edges-Adds name counted g (d ∷ ds) =
      elim (Bool-cases (is_edge deps name d && not (elem d counted))) [
        | inr e ↦ rw (e, picked, count_edges) (count_edges-Adds name counted g ds)
        | inl e ↦
            let a = count_edges-Adds name (d ∷ counted) (add_edge name d g) ds in
            rw (e, picked, count_edges)
              (record {
                here = λ n h. a.here (suc n) (add_edge-degree name d g n h) ∙ ap pos (omega arith);
                elsewhere = λ x f. a.elsewhere x f ∙ add_edge-elsewhere name d g x f;
                back =
                    λ x y. a.back x y ∙ add_edge-back name d g x y (picked name (d ∷ counted) ds);
                keys = λ h. a.keys (rw (add_edge-keys name d g h) h) ∙ add_edge-keys name d g h;
              })
      ]

  unfoldable pub empty_graph : Graph
  empty_graph = record { indeg = []; rdeps = [] }

  -- What the outer loop has counted of the units `seen`.
  pub record IsCounted (seen : List Text) (g : Graph) : Type 0 where
    pub degrees :
        (x : Text) → degree g.indeg x ≡ pos (if elem x seen then length (waits_for x) else 0)
    pub back :
        (x y : Text)
        → count x (list_at g.rdeps y) ≡ (if elem x seen then count y (waits_for x) else 0)
    pub keys : (x : Text) → elem x (keys_of_dict g.indeg) ≡ elem x seen
    pub distinct : Distinct (keys_of_dict g.indeg)

  module _ (seen : List Text) (g : Graph) (i : IsCounted seen g) (name : Text)
      (new : elem name seen ≡ false) where
    enter : Graph
    enter = record g { indeg = put name (degree g.indeg name) g.indeg }

    degree-enter : (x : Text) → degree enter.indeg x ≡ degree g.indeg x
    unfolding enter
    degree-enter x =
        rw (get-put name x (degree g.indeg name) g.indeg) (elim (Bool-cases (text_eq name x)) [
          | inl e ↦ rw (e, eq_of_text_eq name x e) refl
          | inr e ↦ rw e refl
        ])

    counted-next :
        IsCounted (seen ++ (name ∷ [])) (count_edges deps name [] enter (list_at deps name))
    unfolding enter count
    counted-next =
        let a = count_edges-Adds name [] enter (list_at deps name) in
        let listed : elem name (keys_of_dict enter.indeg) ≡ true =
          elem-keys_put name name (degree g.indeg name) g.indeg
          ∙ rw (text_eq_refl name) (ground arith) in
        let same_keys = a.keys listed in
        record {
          degrees = λ x. elim (Bool-cases (text_eq name x)) [
            | inl e ↦ rw (← eq_of_text_eq name x e) (
                rw (elem-snoc_self name seen) (
                  a.here 0 (degree-enter name ∙ i.degrees name ∙ rw new refl)
                  ∙ ap pos (omega arith)))
            | inr e ↦
                a.elsewhere x e
                ∙ degree-enter x
                ∙ i.degrees x
                ∙ rw (elem-snoc x name seen, e) (ground arith)
          ];
          back = λ x y. elim (Bool-cases (text_eq name x)) [
            | inl e ↦ rw (← eq_of_text_eq name x e) (
                ground (
                  arith,
                  a.back name y,
                  i.back name y,
                  new,
                  elem-snoc_self name seen,
                  text_eq_refl name,
                ))
            | inr e ↦ ground (arith, a.back x y, i.back x y, e, elem-snoc x name seen)
          ];
          keys = λ x.
              ap (elem x) same_keys
              ∙ elem-keys_put x name (degree g.indeg name) g.indeg
              ∙ ground (arith, i.keys x, elem-snoc x name seen);
          distinct = rw same_keys (Distinct-put name (degree g.indeg name) g.indeg i.distinct);
        }

  count_all-IsCounted :
      (rest : Dict (List Text)) (seen : List Text) (g : Graph)
      → IsCounted seen g
      → Distinct (keys_of_dict rest)
      → ((x : Text)
          → elem x (keys_of_dict rest) ≡ true
          → (get x rest ≡ get x deps) × (elem x seen ≡ false))
      → IsCounted (seen ++ keys_of_dict rest) (count_all deps g rest)
  unfolding count_all keys_of_dict elem get enter
  count_all-IsCounted [] seen g i d k = rw (append-nil seen) i
  count_all-IsCounted ((name, ds) ∷ rest) seen g i d k =
      let (at, new) = k name (rw (text_eq_refl name) refl) in
      let here : list_at deps name ≡ ds = rw (← at) (rw (text_eq_refl name) refl) in
      let next =
        subst
          (λ l.
            IsCounted (seen ++ (name ∷ [])) (count_edges deps name [] (enter seen g i name new) l))
          here (counted-next seen g i name new) in
      subst (λ l. IsCounted l (count_all deps g ((name, ds) ∷ rest)))
        (append_assoc seen (name ∷ []) (keys_of_dict rest))
        (count_all-IsCounted rest (seen ++ (name ∷ [])) _ next d.1 (λ x m.
          elim (Bool-cases (text_eq name x)) [
            | inl e ↦ cc (rw (← eq_of_text_eq name x e) at m, d.0)
            | inr e ↦
                let old = k x (rw e m) in
                (rw e at (old.0), elem-snoc x name seen ∙ ground (arith, old.1, e))
          ]))

  -- The counts before the first wave.
  unfoldable pub counted_graph : Graph
  counted_graph = count_all deps empty_graph deps

  pub counted_graph-IsCounted :
      Distinct (keys_of_dict deps) → IsCounted (keys_of_dict deps) counted_graph
  unfolding counted_graph empty_graph get elem count keys_of_dict
  counted_graph-IsCounted d =
      count_all-IsCounted deps [] empty_graph
        (record { degrees = λ x. refl; back = λ x y. refl; keys = λ x. refl; distinct = tt }) d
        (λ x m. (refl, refl))
