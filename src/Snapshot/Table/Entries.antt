-- ===== src/Snapshot/Table/Entries.antt =====
-- src/bpf-snapshot.c: what clearing and populating leave in a map.
use client_access.Prelude.{
  In, ℕ, zero, suc, ◌<◌, ◌≡◌, ◌∙◌, sym, Bool, true, false, some, List, [], ◌∷◌, ◌⊎◌, inl, inr, ◌↔◌,
  refl, arith, ap, Option-cases,
}
use client_access.Snapshot.Table.{Next, key, no_entry, failed, Table, clear_map, populate}
use mathlib.Core.Path.{ap₂, subst}

Next-cases : {K : Type 0} (n : Next K) → ((k : K) × (n ≡ key k)) ⊎ ((n ≡ no_entry) ⊎ (n ≡ failed))
Next-cases (key k) = inl (k, refl)
Next-cases no_entry = inr (inl refl)
Next-cases failed = inr (inr refl)

module _ {K V : Type 0} (t : Table K V) where
  abbrev pub IsEmpty : t.Map → Type 0
  IsEmpty m = (k : K) (v : V) → t.Holds m k v → ⊥

  -- The map holds exactly the entries of the list.
  abbrev pub Stores : List (K × V) → t.Map → Type 0
  Stores entries m = (k : K) (v : V) → t.Holds m k v ↔ In (k, v) entries

  pub clear_map-Ends :
      (fuel : ℕ) (m : t.Map)
      → t.size m < fuel
      → (ok : Bool) × (n : t.Map) × (clear_map t fuel m ≡ some (ok, n)) × (ok ≡ true → IsEmpty n)
  unfolding clear_map
  clear_map-Ends zero m h = absurd (omega arith)
  clear_map-Ends (suc fuel) m h = elim (Next-cases (t.first_key m)) [
    | inl (k, e) ↦ elim (Option-cases (t.delete m k)) [
      | inl kept ↦ rw (e, kept, clear_map) (false, m, refl, λ x. absurd (ground arith))
      | inr (n, gone) ↦
          rw (e, gone, clear_map)
            (clear_map-Ends fuel n (omega (arith, t.delete-size m n k e gone)))
    ]
    | inr (inl e) ↦ rw (e, clear_map) (true, m, refl, λ _ k v held. t.no_entry-empty m k v e held)
    | inr (inr e) ↦ rw (e, clear_map) (false, m, refl, λ x. absurd (ground arith))
  ]

  pub populate_adds :
      (entries : List (K × V)) (m : t.Map)
      → (populate t entries m).0 ≡ true
      → (k : K) (v : V) → t.Holds (populate t entries m).1 k v ↔ (t.Holds m k v ⊎ In (k, v) entries)
  unfolding populate
  populate_adds [] m ok k v = (λ h. inl h, λ o. ground arith)
  populate_adds ((j, w) ∷ entries) m ok k v = elim (Option-cases (t.insert m j w)) [
    | inl refused ↦ absurd (ground arith)
    | inr (n, stored) ↦
        let same : populate t ((j, w) ∷ entries) m ≡ populate t entries n =
          rw (stored, populate) refl in
        let rest = populate_adds entries n (ap (λ p. p.0) (sym same) ∙ ok) k v in
        rw same (
          λ h. elim (rest.0 h) [
            | inl held ↦ elim (t.insert-only m n j k w v stored held) [
              | inl old ↦ inl old
              | inr (e, f) ↦ inr (inl (ap₂ (λ a b. (a, b)) e f))
            ]
            | inr later ↦ inr (inr later)
          ],
          λ o. rest.1 (elim o [
            | inl old ↦ inl (t.insert-keeps m n j k w v stored old)
            | inr (inl e) ↦
                inl (subst (λ q. t.Holds n q.0 q.1) (sym e) (t.insert-holds m n j w stored))
            | inr (inr later) ↦ inr later
          ]),
        )
  ]

  -- What is populated after it was cleared holds the entries and nothing else.
  pub populate-Stores :
      (entries : List (K × V)) (m : t.Map)
      → IsEmpty m
      → (populate t entries m).0 ≡ true
      → Stores entries (populate t entries m).1
  populate-Stores entries m empty ok k v =
      let adds = populate_adds entries m ok k v in
      (
        λ h. elim (adds.0 h) [ inl old ↦ absurd (empty k v old) | inr new ↦ new ],
        λ h. adds.1 (inr h),
      )
