-- ===== src/Apkindex/Provides/Newest.antt =====
-- The table routes each name to the newest of the entries that claim it.
use yoe.Common.{
  if◌then◌else◌, Bool-cases, Option-cases, if_elim, ◌≡◌, refl, sym, ap, subst, ◌≢◌, ◌⊎◌, inl, inr,
  true, false, Option, none, some, List, [], ◌∷◌, ◌++◌, map, append-nil, append_assoc, text_eq_refl,
  eq_of_text_eq, text_eq_iff, Text, text_eq, get-put, get, put,
}
use Prim.Native.Nat.{Ordering}
use mathlib.Core.List.{foldl, Memᴰ}
use mathlib.Core.List.Memᴰ
use yoe.Apkindex.Entry.{Entry}
use yoe.Apkindex.Version.{compare_versions}
use yoe.Apkindex.Version.Key.{opposite, compare_versions-swap, compare_versions_trans}
use yoe.Apkindex.Provides.{
  ProvidesTable, strip_version, is_newer, claim, register, register_entry, build_provides_table,
}

-- The names that an entry claims: its own, then its `provides` tokens, without their versions.
unfoldable pub keys_of : List Text → List Text
keys_of [] = []
keys_of ([] ∷ ts) = keys_of ts
keys_of ((c ∷ t) ∷ ts) = strip_version (c ∷ t) ∷ keys_of ts

unfoldable pub claims : List Entry → List (Text × Entry)
unfolding keys_of
claims [] = []
claims (e ∷ es) = map (λ (k : Text). (k, e)) (keys_of (e.name ∷ e.provides)) ++ claims es

-- `o` is a newest claimant of `k`, or nobody claims it.
abbrev pub IsNewest : List (Text × Entry) → Text → Option Entry → Type 0
IsNewest cs k none = (e : Entry) → ¬ Memᴰ (k, e) cs
IsNewest cs k (some e) =
    Memᴰ (k, e) cs
    × ((f : Entry) → Memᴰ (k, f) cs → compare_versions f.version e.version ≢ Ordering.gt)

abbrev claim_pair : ProvidesTable → Text × Entry → ProvidesTable
claim_pair table (k, e) = claim table k e

-- The claimant that stands after `e` claims what `o` held.
abbrev better : Option Entry → Entry → Option Entry
better none e = some e
better (some cur) e = if is_newer e.version cur.version then some e else some cur

get-put_self : (table : ProvidesTable) (k : Text) (e : Entry) → get k (put k e table) ≡ some e
get-put_self table k e = rw (get-put k k e table) (rw (text_eq_refl k))

get-claim_same :
    (table : ProvidesTable) (k : Text) (e : Entry)
    → get k (claim table k e) ≡ better (get k table) e
unfolding claim
get-claim_same table k e = elim (Option-cases (get k table)) [
  | inl h ↦ rw (h, claim) (get-put_self table k e)
  | inr (cur, h) ↦
      rw (h, claim)
        (elim (Bool-cases (is_newer e.version cur.version)) [
          | inl n ↦ rw n (get-put_self table k e)
          | inr n ↦ rw n h
        ])
]

get-claim_other :
    (table : ProvidesTable) (k j : Text) (e : Entry)
    → text_eq k j ≡ false
    → get j (claim table k e) ≡ get j table
unfolding claim
get-claim_other table k j e h = elim (Option-cases (get k table)) [
  | inl n ↦ rw (n, claim) (rw (get-put k j e table) (rw h))
  | inr (cur, n) ↦
      rw (n, claim)
        (elim (Bool-cases (is_newer e.version cur.version)) [
          | inl b ↦ rw b (rw (get-put k j e table) (rw h))
          | inr b ↦ rw b
        ])
]

compare_versions_self : (v : Text) → compare_versions v v ≡ Ordering.eq
unfolding compare_versions
compare_versions_self v = rw (text_eq_refl v)

not_newer : (a b : Text) → is_newer a b ≡ false → compare_versions a b ≢ Ordering.gt
not_newer a b h e = cc (rw (e, is_newer) at h)

newer : (a b : Text) → is_newer a b ≡ true → compare_versions b a ≢ Ordering.gt
newer a b h = rw (compare_versions-swap a b) (go (compare_versions a b) h)
  where
    go :
        (o : Ordering)
        → (elim o [ Ordering.gt ↦ true | _ ↦ false ]) ≡ true
        → opposite o ≢ Ordering.gt
    go Ordering.gt h e = cc
    go Ordering.lt h e = cc
    go Ordering.eq h e = cc

entry_path : {k : Text} {e f : Entry} → ◌≡◌ {A = Text × Entry} (k, f) (k, e) → f ≡ e
entry_path p = ap (λ (q : Text × Entry). q.1) p

-- Among the claims with one more behind them.
snoc_cases :
    (cs : List (Text × Entry)) (k : Text) (e f : Entry)
    → Memᴰ (k, f) (cs ++ (k, e) ∷ [])
    → Memᴰ (k, f) cs ⊎ (f ≡ e)
snoc_cases cs k e f m = elim (Memᴰ.append_cases cs m) [
  | inl old ↦ inl old
  | inr new ↦ inr (entry_path (Memᴰ.eq_of_singleton new))
]

IsNewest-same :
    (cs : List (Text × Entry)) (k : Text) (e : Entry) (o : Option Entry)
    → IsNewest cs k o
    → IsNewest (cs ++ (k, e) ∷ []) k (better o e)
IsNewest-same cs k e none h = (
  Memᴰ.append_right cs (Memᴰ.head refl),
  λ f m. elim (snoc_cases cs k e f m) [
    | inl old ↦ absurd (h f old)
    | inr new ↦ rw new (rw (compare_versions_self e.version) (λ p. cc))
  ],
)
IsNewest-same cs k e (some cur) h =
    if_elim (IsNewest (cs ++ (k, e) ∷ []) k) (is_newer e.version cur.version)
      (λ n. (
        Memᴰ.append_right cs (Memᴰ.head refl),
        λ f m. elim (snoc_cases cs k e f m) [
          | inl old ↦
              compare_versions_trans f.version cur.version e.version (h.1 f old)
                (newer e.version cur.version n)
          | inr new ↦ rw new (rw (compare_versions_self e.version) (λ p. cc))
        ],
      ))
      (λ n. (
        Memᴰ.append_left _ h.0,
        λ f m. elim (snoc_cases cs k e f m) [
          | inl old ↦ h.1 f old
          | inr new ↦ rw new (not_newer e.version cur.version n)
        ],
      ))

snoc_other :
    (cs : List (Text × Entry)) (k j : Text) (e f : Entry)
    → text_eq k j ≡ false
    → Memᴰ (j, f) (cs ++ (k, e) ∷ [])
    → Memᴰ (j, f) cs
snoc_other cs k j e f h m = elim (Memᴰ.append_cases cs m) [
  | inl old ↦ old
  | inr new ↦
      let same : j ≡ k = ap (λ (q : Text × Entry). q.0) (Memᴰ.eq_of_singleton new) in
      cc ((text_eq_iff k j).1 (sym same))
]

IsNewest-other :
    (cs : List (Text × Entry)) (k j : Text) (e : Entry) (o : Option Entry)
    → text_eq k j ≡ false
    → IsNewest cs j o
    → IsNewest (cs ++ (k, e) ∷ []) j o
IsNewest-other cs k j e none h n = λ f m. n f (snoc_other cs k j e f h m)
IsNewest-other cs k j e (some cur) h n =
    (Memᴰ.append_left _ n.0, λ f m. n.1 f (snoc_other cs k j e f h m))

-- The table after the claims `cs`.
IsTable : List (Text × Entry) → ProvidesTable → Type 0
IsTable cs table = (j : Text) → IsNewest cs j (get j table)

claim-IsTable :
    (cs : List (Text × Entry)) (table : ProvidesTable) (k : Text) (e : Entry)
    → IsTable cs table
    → IsTable (cs ++ (k, e) ∷ []) (claim table k e)
unfolding IsTable
claim-IsTable cs table k e h j = elim (Bool-cases (text_eq k j)) [
  | inl same ↦
      subst (λ i. IsNewest (cs ++ (k, e) ∷ []) i (get i (claim table k e))) (eq_of_text_eq k j same)
        (subst (IsNewest (cs ++ (k, e) ∷ []) k) (sym (get-claim_same table k e))
          (IsNewest-same cs k e (get k table) (h k)))
  | inr other ↦
      subst (IsNewest (cs ++ (k, e) ∷ []) j) (sym (get-claim_other table k j e other))
        (IsNewest-other cs k j e (get j table) other (h j))
]

register-IsTable :
    (e : Entry) (ts : List Text) (cs : List (Text × Entry)) (table : ProvidesTable)
    → IsTable cs table
    → IsTable (cs ++ map (λ (k : Text). (k, e)) (keys_of ts)) (foldl (register e) table ts)
unfolding keys_of register
register-IsTable e [] cs table h = rw (append-nil cs) h
register-IsTable e ([] ∷ ts) cs table h = register-IsTable e ts cs table h
register-IsTable e ((c ∷ t) ∷ ts) cs table h =
    let k = strip_version (c ∷ t) in
    subst (λ l. IsTable l (foldl (register e) (claim table k e) ts))
      (append_assoc cs ((k, e) ∷ []) _)
      (register-IsTable e ts (cs ++ (k, e) ∷ []) (claim table k e) (claim-IsTable cs table k e h))

build-IsTable :
    (es : List Entry) (cs : List (Text × Entry)) (table : ProvidesTable)
    → IsTable cs table
    → IsTable (cs ++ claims es) (foldl register_entry table es)
unfolding claims register_entry
build-IsTable [] cs table h = rw (append-nil cs) h
build-IsTable (e ∷ es) cs table h =
    subst (λ l. IsTable l (foldl register_entry (register_entry table e) es))
      (append_assoc cs _ (claims es))
      (build-IsTable es _ (register_entry table e)
        (register-IsTable e (e.name ∷ e.provides) cs table h))

-- The table that is built from a list of entries answers a name with an entry that claims it and
-- than which no claimant is newer, and with none exactly where nobody claims the name.
pub build_provides_table-IsNewest :
    (entries : List Entry) (name : Text)
    → IsNewest (claims entries) name (get name (build_provides_table entries))
unfolding build_provides_table IsTable
build_provides_table-IsNewest entries name =
    build-IsTable entries [] [] (unfold get in λ j e m. Memᴰ.not-nil m) name
