-- ===== src/Resolve/Edges/Images.antt =====
-- The edges to the containers that a unit's tasks run inside.
use yoe.Common.{
  if_elim, elem-snoc, ◌≡◌, refl, sym, ap, ◌∙◌, subst, ◌≢◌, ◌↔◌, ◌⊎◌, inl, inr, true, false, some,
  List, [], ◌∷◌, arith, eq_of_text_eq, text_eq_iff, Text, text_eq, Dict, get, elem,
}
use mathlib.Core.List.{Memᴰ}
use mathlib.Core.List.Memᴰ
use yoe.Starlark.Units.{PackageUnit}
use yoe.Starlark.Projects.{Project}
use yoe.Resolve.Containers.{ContainerRef, resolve_container, add_ref, add_refs, container_refs_of}
use yoe.Resolve.Edges.{is_some, add_container, add_containers, append_container_deps}

-- A container reference of the unit, its own or a task's, resolves to another unit `x` of the view.
pub record RunsIn (p : Project) (units : Dict PackageUnit) (u : PackageUnit) (distro x : Text)
    : Type 0 where
  pub written : Text
  pub listed : Memᴰ written (u.container ∷ u.task_containers)
  pub named : (resolve_container p (some u) written distro).name ≡ x
  pub not_empty : x ≢ []
  pub internal : (resolve_container p (some u) written distro).external ≡ false
  pub other : x ≢ u.name
  pub scheduled : is_some (get x units) ≡ true

module _ (p : Project) (units : Dict PackageUnit) (u : PackageUnit) (distro : Text) where
  -- A reference adds `x`.
  abbrev Adds : ContainerRef → Text → Type 0
  Adds ref x =
      (ref.name ≡ x)
      × (ref.external ≡ false)
      × (text_eq x u.name ≡ false)
      × (is_some (get x units) ≡ true)

  elem-add_container :
      (deps : List Text) (ref : ContainerRef) (x : Text)
      → elem x (add_container units u deps ref) ≡ true ↔ ((elem x deps ≡ true) ⊎ Adds ref x)
  unfolding add_container
  elem-add_container deps ref x = ground (arith, elem-snoc x ref.name deps, text_eq_iff ref.name x)

  elem-add_containers :
      (refs : List ContainerRef) (deps : List Text) (x : Text)
      → elem x (add_containers units u deps refs) ≡ true
        ↔ ((elem x deps ≡ true) ⊎ ((ref : ContainerRef) × Memᴰ ref refs × Adds ref x))
  unfolding add_containers
  elem-add_containers [] deps x =
      (inl, λ m. elim m [ inl h ↦ h | inr (ref, l, _) ↦ absurd (Memᴰ.not-nil l) ])
  elem-add_containers (ref ∷ refs) deps x =
      let rest = elem-add_containers refs (add_container units u deps ref) x in
      let new = elem-add_container deps ref x in
      (
        λ m. elim (rest.0 m) [
          | inr (r, l, a) ↦ inr (r, Memᴰ.tail l, a)
          | inl h ↦ elim (new.0 h) [ inl old ↦ inl old | inr a ↦ inr (ref, Memᴰ.head refl, a) ]
        ],
        λ m. elim m [
          | inl old ↦ rest.1 (inl (new.1 (inl old)))
          | inr (r, l, a) ↦ elim (Memᴰ.cases_cons l) [
            | inl e ↦ rest.1 (inl (new.1 (inr (subst (λ q. Adds q x) e a))))
            | inr t ↦ rest.1 (inr (r, t, a))
          ]
        ],
      )

  -- What a reference that is written resolves to, if it is one.
  abbrev Written : List Text → ContainerRef → Type 0
  Written refs r =
      (w : Text) × Memᴰ w refs × (resolve_container p (some u) w distro ≡ r) × (r.name ≢ [])

  mem-add_ref :
      (out : List ContainerRef) (ref r : ContainerRef)
      → Memᴰ r (add_ref out ref) ↔ (Memᴰ r out ⊎ (ref ≡ r) × (ref.name ≢ []))
  unfolding add_ref
  mem-add_ref out ref r =
      if_elim (λ l. Memᴰ r l ↔ (Memᴰ r out ⊎ (ref ≡ r) × (ref.name ≢ []))) (text_eq ref.name [])
        (λ f. (
          inl,
          λ m. elim m [ inl old ↦ old | inr (_, n) ↦ absurd (n (eq_of_text_eq ref.name [] f)) ],
        ))
        (λ f. (
          λ m. elim (Memᴰ.append_cases out m) [
            | inl old ↦ inl old
            | inr new ↦
                inr (sym (Memᴰ.eq_of_singleton new), λ e. cc ((text_eq_iff ref.name []).1 e))
          ],
          λ m. elim m [
            | inl old ↦ Memᴰ.append_left _ old
            | inr (e, _) ↦ Memᴰ.append_right out (Memᴰ.head (sym e))
          ],
        ))

  mem-add_refs :
      (ws : List Text) (out : List ContainerRef) (r : ContainerRef)
      → Memᴰ r (add_refs p u distro out ws) ↔ (Memᴰ r out ⊎ Written ws r)
  unfolding add_refs
  mem-add_refs [] out r =
      (inl, λ m. elim m [ inl h ↦ h | inr (w, l, _, _) ↦ absurd (Memᴰ.not-nil l) ])
  mem-add_refs (w ∷ ws) out r =
      let ref = resolve_container p (some u) w distro in
      let rest = mem-add_refs ws (add_ref out ref) r in
      let new = mem-add_ref out ref r in
      (
        λ m. elim (rest.0 m) [
          | inr (v, l, e, n) ↦ inr (v, Memᴰ.tail l, e, n)
          | inl h ↦ elim (new.0 h) [
            | inl old ↦ inl old
            | inr (e, n) ↦
                inr (w, Memᴰ.head refl, e, λ k. n (ap (λ (q : ContainerRef). q.name) e ∙ k))
          ]
        ],
        λ m. elim m [
          | inl old ↦ rest.1 (inl (new.1 (inl old)))
          | inr (v, l, e, n) ↦ elim (Memᴰ.cases_cons l) [
            | inl f ↦
                let same : ref ≡ r = subst (λ t. resolve_container p (some u) t distro ≡ r) f e in
                rest.1 (
                  inl
                    (new.1 (inr (same, λ k. n (sym (ap (λ (q : ContainerRef). q.name) same) ∙ k)))))
            | inr t ↦ rest.1 (inr (v, t, e, n))
          ]
        ],
      )

-- `appendContainerDeps` keeps the dependencies and adds exactly the units of the view that the
-- unit's container references, its own and its tasks', resolve to: no external image, and never the
-- unit itself.
pub append_container_deps-RunsIn :
    (deps : List Text) (p : Project) (units : Dict PackageUnit) (u : PackageUnit) (distro x : Text)
    → elem x (append_container_deps deps p units u distro) ≡ true
      ↔ ((elem x deps ≡ true) ⊎ RunsIn p units u distro x)
unfolding append_container_deps container_refs_of
append_container_deps-RunsIn deps p units u distro x =
    let all = elem-add_containers p units u distro (container_refs_of p u distro) deps x in
    let written = u.container ∷ u.task_containers in
    (
      λ m. elim (all.0 m) [
        | inl old ↦ inl old
        | inr (ref, l, (n, i, o, s)) ↦ elim ((mem-add_refs p units u distro written [] ref).0 l) [
          | inl none_yet ↦ absurd (Memᴰ.not-nil none_yet)
          | inr (w, k, e, f) ↦ inr (record {
            written = w;
            listed = k;
            named = ap (λ (q : ContainerRef). q.name) e ∙ n;
            not_empty = λ z. f (n ∙ z);
            internal = ap (λ (q : ContainerRef). q.external) e ∙ i;
            other = λ z. cc ((text_eq_iff x u.name).1 z);
            scheduled = s;
          })
        ]
      ],
      λ m. elim m [
        | inl old ↦ all.1 (inl old)
        | inr r ↦
            let ref = resolve_container p (some u) r.written distro in
            let away : text_eq x u.name ≡ false = ground (arith, text_eq_iff x u.name, r.other) in
            all.1 (
              inr (
                ref,
                (mem-add_refs p units u distro written [] ref).1
                    (inr (r.written, r.listed, refl, λ z. r.not_empty (sym r.named ∙ z))),
                (r.named, r.internal, away, r.scheduled),
              ))
      ],
    )
