-- ===== src/Apkindex/Index/Setting.antt =====
-- What `setField` does to the entry of an open block.
use yoe.Common.{
  ◌==◌, if◌then◌else◌, ==_iff, Option-cases, if_elim, Result, ok, err, ℕ, ◌≡◌, refl, sym, subst,
  inl, inr, true, false, Text, split_fields,
}
use yoe.Apkindex.Entry.{Entry}
use yoe.Apkindex.Index.{parse_int, set_number, set_field, split_tokens, IndexError}

-- What setting the field of a key makes of an entry; the checksum is left as it is.
abbrev pub IsSetBy : ℕ → Text → Entry → Entry → Type 0
IsSetBy key val cur e =
    (e.name ≡ (if key == b'P' then val else cur.name))
    × (e.version ≡ (if key == b'V' then val else cur.version))
    × (e.description ≡ (if key == b'T' then val else cur.description))
    × (e.license ≡ (if key == b'L' then val else cur.license))
    × (e.checksum_text ≡ (if key == b'C' then val else cur.checksum_text))
    × (e.deps ≡ (if key == b'D' then split_fields val else cur.deps))
    × (e.provides ≡ (if key == b'p' then split_fields val else cur.provides))
    × (e.replaces ≡ (if key == b'r' then split_fields val else cur.replaces))
    × (e.checksum ≡ cur.checksum)

abbrev pub OnOk {ℓ κ} : {E : Type 0} {A : Type ℓ} → (A → Type κ) → Result E A → Type κ
OnOk P (err _) = Unit
OnOk P (ok a) = P a

pub on_ok {ℓ κ} :
    {E : Type 0} {A : Type ℓ} (P : A → Type κ) (r : Result E A) (a : A) → OnOk P r → r ≡ ok a → P a
on_ok P r a h e = subst (OnOk P) e h

set_number-OnOk :
    (P : Entry → Type 0) (line key : ℕ) (val : Text) (update : ℕ → Entry)
    → ((n : ℕ) → P (update n))
    → OnOk P (set_number line key val update)
unfolding set_number
set_number-OnOk P line key val update h = elim (Option-cases (parse_int val)) [
  | inl e ↦ rw (e, set_number) tt
  | inr (n, e) ↦ rw (e, set_number) (h n)
]

module _ (cur : Entry) (key : ℕ) (val : Text) (line : ℕ) where
  abbrev Sets : Result IndexError Entry → Type 0
  Sets = OnOk (IsSetBy key val cur)

  -- A branch for a key that is known.
  known :
      (k : ℕ) (r : Result IndexError Entry)
      → (key == k) ≡ true
      → OnOk (IsSetBy k val cur) r
      → Sets r
  known k r h = subst (λ n. OnOk (IsSetBy n val cur) r) (sym ((==_iff key k).0 h))

  known_number :
      (k : ℕ) (update : ℕ → Entry)
      → (key == k) ≡ true
      → ((n : ℕ) → IsSetBy k val cur (update n))
      → Sets (set_number line key val update)
  known_number k update h t =
      known k (set_number line key val update) h
        (set_number-OnOk (IsSetBy k val cur) line key val update t)

  set_description-IsSetBy :
      (rest : Result IndexError Entry)
      → ((key == b'P') ≡ false → (key == b'V') ≡ false → (key == b'T') ≡ false → Sets rest)
      → Sets (
          if key == b'P'
          then ok (record cur { name = val })
          else if key == b'V'
          then ok (record cur { version = val })
          else if key == b'T'
          then ok (record cur { description = val })
          else if key == b'U'
          then ok (record cur { url = val })
          else rest)
  set_description-IsSetBy rest later =
      if_elim Sets (key == b'P')
        (λ h.
          known b'P' (ok (record cur { name = val })) h
            (refl, refl, refl, refl, refl, refl, refl, refl, refl))
        (λ nP.
          if_elim Sets (key == b'V')
            (λ h.
              known b'V' (ok (record cur { version = val })) h
                (refl, refl, refl, refl, refl, refl, refl, refl, refl))
            (λ nV.
              if_elim Sets (key == b'T')
                (λ h.
                  known b'T' (ok (record cur { description = val })) h
                    (refl, refl, refl, refl, refl, refl, refl, refl, refl))
                (λ nT.
                  if_elim Sets (key == b'U')
                    (λ h.
                      known b'U' (ok (record cur { url = val })) h
                        (refl, refl, refl, refl, refl, refl, refl, refl, refl))
                    (λ _. later nP nV nT))))

  set_numbers-IsSetBy :
      (rest : Result IndexError Entry)
      → ((key == b'L') ≡ false → Sets rest)
      → Sets (
          if key == b'L'
          then ok (record cur { license = val })
          else if key == b'A'
          then ok (record cur { arch = val })
          else if key == b'S'
          then (set_number line key val (λ n. record cur { size = n }))
          else if key == b'I'
          then (set_number line key val (λ n. record cur { installed_size = n }))
          else rest)
  set_numbers-IsSetBy rest later =
      if_elim Sets (key == b'L')
        (λ h.
          known b'L' (ok (record cur { license = val })) h
            (refl, refl, refl, refl, refl, refl, refl, refl, refl))
        (λ nL.
          if_elim Sets (key == b'A')
            (λ h.
              known b'A' (ok (record cur { arch = val })) h
                (refl, refl, refl, refl, refl, refl, refl, refl, refl))
            (λ _.
              if_elim Sets (key == b'S')
                (λ h.
                  known_number b'S' (λ n. record cur { size = n }) h
                    (λ n. (refl, refl, refl, refl, refl, refl, refl, refl, refl)))
                (λ _.
                  if_elim Sets (key == b'I')
                    (λ h.
                      known_number b'I' (λ n. record cur { installed_size = n }) h
                        (λ n. (refl, refl, refl, refl, refl, refl, refl, refl, refl)))
                    (λ _. later nL))))

  set_origin-IsSetBy :
      (rest : Result IndexError Entry)
      → (Sets rest)
      → Sets (
          if key == b'o'
          then ok (record cur { origin = val })
          else if key == b'm'
          then ok (record cur { maintainer = val })
          else if key == b't'
          then (set_number line key val (λ n. record cur { build_time = n }))
          else if key == b'c'
          then ok (record cur { commit = val })
          else rest)
  set_origin-IsSetBy rest later =
      if_elim Sets (key == b'o')
        (λ h.
          known b'o' (ok (record cur { origin = val })) h
            (refl, refl, refl, refl, refl, refl, refl, refl, refl))
        (λ _.
          if_elim Sets (key == b'm')
            (λ h.
              known b'm' (ok (record cur { maintainer = val })) h
                (refl, refl, refl, refl, refl, refl, refl, refl, refl))
            (λ _.
              if_elim Sets (key == b't')
                (λ h.
                  known_number b't' (λ n. record cur { build_time = n }) h
                    (λ n. (refl, refl, refl, refl, refl, refl, refl, refl, refl)))
                (λ _.
                  if_elim Sets (key == b'c')
                    (λ h.
                      known b'c' (ok (record cur { commit = val })) h
                        (refl, refl, refl, refl, refl, refl, refl, refl, refl))
                    (λ _. later))))

  set_lists-IsSetBy :
      (rest : Result IndexError Entry)
      → ((key == b'C') ≡ false
          → (key == b'D') ≡ false
          → (key == b'p') ≡ false
          → (key == b'r') ≡ false
          → Sets rest)
      → Sets (
          if key == b'C'
          then ok (record cur { checksum_text = val })
          else if key == b'D'
          then ok (record cur { deps = split_fields val })
          else if key == b'p'
          then ok (record cur { provides = split_fields val })
          else if key == b'r'
          then ok (record cur { replaces = split_fields val })
          else if key == b'i'
          then ok (record cur { install_if = split_fields val })
          else rest)
  set_lists-IsSetBy rest later =
      if_elim Sets (key == b'C')
        (λ h.
          known b'C' (ok (record cur { checksum_text = val })) h
            (refl, refl, refl, refl, refl, refl, refl, refl, refl))
        (λ nC.
          if_elim Sets (key == b'D')
            (λ h.
              known b'D' (ok (record cur { deps = split_fields val })) h
                (refl, refl, refl, refl, refl, refl, refl, refl, refl))
            (λ nD.
              if_elim Sets (key == b'p')
                (λ h.
                  known b'p' (ok (record cur { provides = split_fields val })) h
                    (refl, refl, refl, refl, refl, refl, refl, refl, refl))
                (λ np.
                  if_elim Sets (key == b'r')
                    (λ h.
                      known b'r' (ok (record cur { replaces = split_fields val })) h
                        (refl, refl, refl, refl, refl, refl, refl, refl, refl))
                    (λ nr.
                      if_elim Sets (key == b'i')
                        (λ h.
                          known b'i' (ok (record cur { install_if = split_fields val })) h
                            (refl, refl, refl, refl, refl, refl, refl, refl, refl))
                        (λ _. later nC nD np nr)))))

  -- `setField` sets the field of the key, and no other one.
  pub set_field-IsSetBy : Sets (set_field cur key val line)
  unfolding set_field split_tokens
  set_field-IsSetBy = set_description-IsSetBy _ (λ nP nV nT. set_numbers-IsSetBy _ (λ nL.
      set_origin-IsSetBy _ (
        set_lists-IsSetBy (ok cur) (λ nC nD np nr. (
          rw nP refl,
          rw nV refl,
          rw nT refl,
          rw nL refl,
          rw nC refl,
          rw nD refl,
          rw np refl,
          rw nr refl,
          refl,
        )))))

pub IsSetBy-checksum :
    (key : ℕ) (val : Text) (cur e : Entry) → IsSetBy key val cur e → e.checksum ≡ cur.checksum
IsSetBy-checksum key val cur e (_, _, _, _, _, _, _, _, same) = same
