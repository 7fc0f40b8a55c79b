-- ===== src/Controller/Health/Subjects.antt =====
-- src/bpf-health.c: `count_unique_subjects` counts each subject once.
use client_access.Prelude.{
  ℕ, ◌≤◌, ◌≡◌, ◌∙◌, refl, sym, ap, true, false, ◌||◌, Option, none, some, List, [], ◌∷◌, ◌++◌, ◌==◌,
  ltb, length, length-append, In, Bool-cases, ◌⊎◌, inl, inr, arith,
}
use mathlib.Core.Option
use client_access.Abi.{max_subjects}
use client_access.Controller.Health.{is_listed, unique_subjects, count_unique_subjects}

-- No value stands twice.
abbrev pub IsUnique : List ℕ → Type 0
IsUnique [] = Unit
IsUnique (value ∷ values) = (is_listed value values ≡ false) × IsUnique values

is_listed-append :
    (id : ℕ) (a b : List ℕ) → is_listed id (a ++ b) ≡ (is_listed id a || is_listed id b)
is_listed-append id [] b = refl
is_listed-append id (x ∷ a) b = elim (Bool-cases (x == id)) [
  | inl hit ↦ rw hit refl
  | inr miss ↦ rw miss (is_listed-append id a b)
]

snoc-IsUnique :
    (id : ℕ) (values : List ℕ)
    → IsUnique values
    → is_listed id values ≡ false
    → IsUnique (values ++ (id ∷ []))
snoc-IsUnique id [] all fresh = (refl, tt)
snoc-IsUnique id (x ∷ values) (own, all) fresh =
    (is_listed-append x values (id ∷ []) ∙ ground arith, snoc-IsUnique id values all (ground arith))

-- What the count collects: each value once, within the limit, and every subject, or the limit.
abbrev pub Collects : List (Option ℕ) → (before after : List ℕ) → Type 0
Collects keys before after =
    IsUnique after
    × (length after ≤ max_subjects)
    × (length before ≤ length after)
    × ((id : ℕ) → is_listed id after ≡ true → (is_listed id before ≡ true) ⊎ In (some id) keys)
    × ((length after ≡ max_subjects)
        ⊎ ((id : ℕ) → (is_listed id before ≡ true) ⊎ In (some id) keys → is_listed id after ≡ true))

-- A key that adds nothing: its subject is listed, or the limit is reached.
Collects-skip :
    (key : Option ℕ) (rest : List (Option ℕ)) (values after : List ℕ)
    → (length values ≡ max_subjects) ⊎ ((id : ℕ) → some id ≡ key → is_listed id values ≡ true)
    → Collects rest values after
    → Collects (key ∷ rest) values after
Collects-skip key rest values after covered (u, n, grows, sub, all) = (
  u,
  n,
  grows,
  λ id at. elim (sub id at) [ inl old ↦ inl old | inr new ↦ inr (inr new) ],
  elim covered [
    | inl full ↦ inl (omega arith)
    | inr listed ↦ elim all [
      | inl full ↦ inl full
      | inr complete ↦ inr (λ id at. elim at [
        | inl old ↦ complete id (inl old)
        | inr (inl here) ↦ complete id (inl (listed id here))
        | inr (inr there) ↦ complete id (inr there)
      ])
    ]
  ],
)

listed-snoc :
    (id' id : ℕ) (values : List ℕ)
    → is_listed id' (values ++ (id ∷ [])) ≡ true
    → (is_listed id' values ≡ true) ⊎ (id ≡ id')
listed-snoc id' id values h =
    let split = sym (is_listed-append id' values (id ∷ [])) ∙ h in ground (arith, split)

snoc-listed :
    (id' id : ℕ) (values : List ℕ)
    → (is_listed id' values ≡ true) ⊎ (id ≡ id')
    → is_listed id' (values ++ (id ∷ [])) ≡ true
snoc-listed id' id values either = is_listed-append id' values (id ∷ []) ∙ ground arith

Collects-add :
    (id : ℕ) (rest : List (Option ℕ)) (values after : List ℕ)
    → Collects rest (values ++ (id ∷ [])) after
    → Collects (some id ∷ rest) values after
Collects-add id rest values after (u, n, grows, sub, all) = (
  u,
  n,
  omega (arith, grows, length-append values (id ∷ [])),
  λ id' at. elim (sub id' at) [
    | inl old ↦ elim (listed-snoc id' id values old) [
      | inl before ↦ inl before
      | inr same ↦ inr (inl (ap some (sym same)))
    ]
    | inr new ↦ inr (inr new)
  ],
  elim all [
    | inl full ↦ inl full
    | inr complete ↦ inr (λ id' at. elim at [
      | inl old ↦ complete id' (inl (snoc-listed id' id values (inl old)))
      | inr (inl here) ↦
          complete id'
            (inl (snoc-listed id' id values (inr (sym (Option.some-injective id' id here)))))
      | inr (inr there) ↦ complete id' (inr there)
    ])
  ],
)

unique_subjects-Collects :
    (keys : List (Option ℕ)) (values : List ℕ)
    → IsUnique values
    → length values ≤ max_subjects
    → Collects keys values (unique_subjects keys values)
unfolding unique_subjects
unique_subjects-Collects [] values unique few = (
  unique,
  few,
  omega arith,
  λ id at. inl at,
  inr (λ id at. elim at [ inl old ↦ old | inr new ↦ absurd new ]),
)
unique_subjects-Collects (none ∷ rest) values unique few =
    Collects-skip none rest values (unique_subjects rest values)
      (inr (λ id same. absurd (ground (arith, same))))
      (unique_subjects-Collects rest values unique few)
unique_subjects-Collects (some id ∷ rest) values unique few =
    elim (Bool-cases (is_listed id values)) [
      | inl old ↦
          rw (old, unique_subjects)
            (Collects-skip (some id) rest values (unique_subjects rest values)
              (inr (λ id' same.
                ap (λ x. is_listed x values) (Option.some-injective id' id same) ∙ old))
              (unique_subjects-Collects rest values unique few))
      | inr new ↦ elim (Bool-cases (ltb (length values) max_subjects)) [
        | inr full ↦
            rw (new, full, unique_subjects)
              (Collects-skip (some id) rest values (unique_subjects rest values)
                (inl (ground arith)) (unique_subjects-Collects rest values unique few))
        | inl room ↦
            let room' : length (values ++ (id ∷ [])) ≤ max_subjects =
              ground (arith, length-append values (id ∷ [])) in
            rw (new, room, unique_subjects)
              (Collects-add id rest values (unique_subjects rest (values ++ (id ∷ []))) (
                unique_subjects-Collects rest (values ++ (id ∷ []))
                  (snoc-IsUnique id values unique new) room'))
      ]
    ]

-- The subjects that are counted are distinct, at most as many as the map of subjects has room for,
-- and of the keys; and, unless that limit is reached, every subject of a key is counted.
pub unique_subjects-IsUnique :
    (keys : List (Option ℕ))
    → IsUnique (unique_subjects keys [])
      × (count_unique_subjects keys ≤ max_subjects)
      × ((id : ℕ) → is_listed id (unique_subjects keys []) ≡ true → In (some id) keys)
      × ((count_unique_subjects keys ≡ max_subjects)
          ⊎ ((id : ℕ) → In (some id) keys → is_listed id (unique_subjects keys []) ≡ true))
unique_subjects-IsUnique keys =
    let (u, n, grows, sub, all) = unique_subjects-Collects keys [] tt (omega arith) in
    (
      u,
      n,
      λ id at. elim (sub id at) [ inl old ↦ absurd (ground arith) | inr new ↦ new ],
      elim all [ inl full ↦ inl full | inr complete ↦ inr (λ id at. complete id (inr at)) ],
    )
