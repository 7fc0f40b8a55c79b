-- ===== src/Datapath/Classify/Hints.antt =====
-- src/client-access-bpf.c, `ca_classify`: the class that two hints give, told of the hints alone.
use client_access.Prelude.{
  ℕ, ◌≡◌, ◌≢◌, ◌⊎◌, Bool, false, ◌&&◌, ◌==◌, Option, none, some, Bool-cases, inl, inr, arith, refl,
  ◌||◌, true,
}
use client_access.Abi.{
  ClassHint, kind_none, kind_exact, kind_category, kind_unclassified, class_unclassified,
}
use client_access.Datapath.Classify.{Class, merge_hint, merge_hints, class_of}
use client_access.Datapath.Classify.Merge.{class_of-merge_hints_comm}

-- There is no hint, or one of kind NONE.
abbrev IsSilent : Option ClassHint → Type 0
IsSilent none = Unit
IsSilent (some hint) = hint.kind ≡ kind_none

-- There is a hint, and it is for the class.
abbrev Names : Option ClassHint → (class_id category_id kind : ℕ) → Type 0
Names none class_id category_id kind = ⊥
Names (some hint) class_id category_id kind =
    (hint.class_id ≡ class_id)
    × (hint.category_id ≡ category_id)
    × (hint.kind ≡ kind)
    × (kind ≢ kind_none)
    × (kind ≢ kind_unclassified)

-- The hint is for the same class, or it is for the category of an exact class.
abbrev Endorses : Option ClassHint → (class_id category_id kind : ℕ) → Type 0
Endorses hint class_id category_id kind =
    Names hint class_id category_id kind
    ⊎ (kind ≡ kind_exact) × (above : ℕ) × Names hint category_id above kind_category

-- Two hints give a class if one is for it, and the other is silent or endorses it.
abbrev pub Gives : (a b : Option ClassHint) → (class_id kind : ℕ) → Type 0
Gives a b class_id kind =
    (category_id : ℕ) × (Names a class_id category_id kind × IsSilent b
      ⊎ IsSilent a × Names b class_id category_id kind
      ⊎ Names a class_id category_id kind × Endorses b class_id category_id kind
      ⊎ Endorses a class_id category_id kind × Names b class_id category_id kind)

-- A class that the hints give, or none, and then they give none.
abbrev pub IsGiven : (a b : Option ClassHint) → Class → Type 0
IsGiven a b class =
    ((class.class_kind ≢ kind_none) × Gives a b class.class_id class.class_kind)
    ⊎ (class.class_kind ≡ kind_none)
      × (class.class_id ≡ class_unclassified)
      × ((class_id kind : ℕ) → ¬ Gives a b class_id kind)

abbrev class_none : Class
class_none = record { class_id = class_unclassified; class_kind = kind_none }

abbrev class_hint : ClassHint → Class
class_hint hint = record { class_id = hint.class_id; class_kind = hint.kind }

abbrev same_hint : (a b : ClassHint) → Bool
same_hint a b = a.kind == b.kind && (a.class_id == b.class_id && a.category_id == b.category_id)

-- `a` is for an exact class, `b` for its category.
abbrev refines : (a b : ClassHint) → Bool
refines a b = a.kind == kind_exact && (b.kind == kind_category && a.category_id == b.class_id)

-- Two hints that are silent, or that cannot be agreed on.
abbrev Clash : (a b : ClassHint) → Type 0
Clash a b =
    (a.kind ≡ kind_unclassified)
    ⊎ (b.kind ≡ kind_unclassified)
    ⊎ (a.kind ≡ kind_none) × (b.kind ≡ kind_none)
    ⊎ (a.kind ≢ kind_none)
      × (b.kind ≢ kind_none)
      × (same_hint a b ≡ false)
      × (refines a b ≡ false)
      × (refines b a ≡ false)

Clash_lem :
    (a b : ClassHint) → Clash a b → (class_id kind : ℕ) → ¬ Gives (some a) (some b) class_id kind
Clash_lem a b clash c k (cat, g) = elim g [
  | inl alone ↦ ground arith
  | inr (inl alone) ↦ ground arith
  | inr (inr (inl (own, inl same))) ↦ ground arith
  | inr (inr (inl (own, inr (exact, above, category)))) ↦ ground arith
  | inr (inr (inr (inl same, own))) ↦ ground arith
  | inr (inr (inr (inr (exact, above, category), own))) ↦ ground arith
]

module _ (a b : ClassHint) where
  Clash-merge : Clash a b → class_of (merge_hints (some a) (some b)) ≡ class_none
  unfolding merge_hint merge_hints class_of
  Clash-merge clash = ground arith

  Clash-IsGiven : Clash a b → IsGiven (some a) (some b) (class_of (merge_hints (some a) (some b)))
  Clash-IsGiven clash = rw (Clash-merge clash) (inr (refl, refl, Clash_lem a b clash))

  -- The second hint is for nothing else than the first.
  left-merge :
      a.kind ≢ kind_none
      → a.kind ≢ kind_unclassified
      → b.kind ≡ kind_none ⊎ b.kind ≢ kind_unclassified × (same_hint a b || refines a b ≡ true)
      → class_of (merge_hints (some a) (some b)) ≡ class_hint a
  unfolding merge_hint merge_hints class_of
  left-merge has known agrees = ground arith

  right-merge :
      b.kind ≢ kind_none
      → b.kind ≢ kind_unclassified
      → a.kind ≡ kind_none ⊎ refines b a ≡ true
      → class_of (merge_hints (some a) (some b)) ≡ class_hint b
  unfolding merge_hint merge_hints class_of
  right-merge has known agrees = ground arith

one-IsGiven : (h : ClassHint) → IsGiven (some h) none (class_of (merge_hints (some h) none))
unfolding merge_hint merge_hints class_of
one-IsGiven h = elim (Bool-cases (h.kind == kind_none || h.kind == kind_unclassified)) [
  | inl no_class ↦
      let is : class_of (merge_hints (some h) none) ≡ class_none = ground arith in
      rw is (inr (refl, refl, λ c k (cat, g). ground arith))
  | inr known ↦
      let is : class_of (merge_hints (some h) none) ≡ class_hint h = ground arith in
      rw is (
        inl
          (ground arith, (h.category_id, inl ((refl, refl, refl, ground arith, ground arith), tt))))
]

-- The order of the hints does not matter.
comm-Gives :
    (a b : Option ClassHint) (class_id kind : ℕ) → Gives a b class_id kind → Gives b a class_id kind
comm-Gives a b class_id kind (category_id, g) = elim g [
  | inl (own, silent) ↦ (category_id, inr (inl (silent, own)))
  | inr (inl (silent, own)) ↦ (category_id, inl (own, silent))
  | inr (inr (inl (own, endorsed))) ↦ (category_id, inr (inr (inr (endorsed, own))))
  | inr (inr (inr (endorsed, own))) ↦ (category_id, inr (inr (inl (own, endorsed))))
]

no_hint-Gives : (class_id kind : ℕ) → ¬ Gives none none class_id kind
no_hint-Gives class_id kind (category_id, g) = elim g [
  | inl (own, silent) ↦ own
  | inr (inl (silent, own)) ↦ own
  | inr (inr (inl (own, endorsed))) ↦ own
  | inr (inr (inr (endorsed, own))) ↦ own
]

none-IsGiven : IsGiven none none (class_of (merge_hints none none))
unfolding merge_hint merge_hints class_of
none-IsGiven = inr (refl, refl, no_hint-Gives)

comm-IsGiven : (a b : Option ClassHint) (class : Class) → IsGiven a b class → IsGiven b a class
comm-IsGiven a b class (inl (has, given)) = inl (has, comm-Gives a b _ _ given)
comm-IsGiven a b class (inr (kind, id, not_given)) =
    inr (kind, id, λ c k given. not_given c k (comm-Gives b a c k given))

agree-IsGiven :
    (a b : ClassHint)
    → a.kind ≢ kind_none
    → a.kind ≢ kind_unclassified
    → b.kind ≢ kind_none
    → b.kind ≢ kind_unclassified
    → IsGiven (some a) (some b) (class_of (merge_hints (some a) (some b)))
agree-IsGiven a b has_a known_a has_b known_b = elim (Bool-cases (same_hint a b)) [
  | inl same ↦ rw (left-merge a b has_a known_a (inr (known_b, ground arith))) (
      inl (
        has_a,
        (
          a.category_id,
          inr (
              inr (
                inl (
                  (refl, refl, refl, has_a, known_a),
                  inl (ground arith, ground arith, ground arith, has_a, known_a),
                ))),
        ),
      ))
  | inr other ↦ elim (Bool-cases (refines a b)) [
    | inl finer ↦ rw (left-merge a b has_a known_a (inr (known_b, ground arith))) (
        inl (
          has_a,
          (
            a.category_id,
            inr (
                inr (
                  inl (
                    (refl, refl, refl, has_a, known_a),
                    inr (
                      ground arith,
                      b.category_id,
                      (ground arith, refl, ground arith, ground arith, ground arith),
                    ),
                  ))),
          ),
        ))
    | inr coarser ↦ elim (Bool-cases (refines b a)) [
      | inl finer ↦ rw (right-merge a b has_b known_b (inr finer)) (
          inl (
            has_b,
            (
              b.category_id,
              inr (
                  inr (
                    inr (
                      inr (
                        ground arith,
                        a.category_id,
                        (ground arith, refl, ground arith, ground arith, ground arith),
                      ),
                      (refl, refl, refl, has_b, known_b),
                    ))),
            ),
          ))
      | inr clash ↦ Clash-IsGiven a b (inr (inr (inr (has_a, has_b, other, coarser, clash))))
    ]
  ]
]

two-IsGiven :
    (a b : ClassHint) → IsGiven (some a) (some b) (class_of (merge_hints (some a) (some b)))
two-IsGiven a b = elim (Bool-cases (a.kind == 3 || b.kind == 3)) [
  | inl unknown ↦ Clash-IsGiven a b (ground arith)
  | inr known ↦ elim (Bool-cases (a.kind == 0)) [
    | inl silent_a ↦ elim (Bool-cases (b.kind == 0)) [
      | inl silent_b ↦ Clash-IsGiven a b (ground arith)
      | inr has_b ↦ rw (right-merge a b (ground arith) (ground arith) (ground arith)) (
          inl (
            ground arith,
            (
              b.category_id,
              inr (inl (ground arith, (refl, refl, refl, ground arith, ground arith))),
            ),
          ))
    ]
    | inr has_a ↦ elim (Bool-cases (b.kind == 0)) [
      | inl silent_b ↦ rw (left-merge a b (ground arith) (ground arith) (ground arith)) (
          inl (
            ground arith,
            (a.category_id, inl ((refl, refl, refl, ground arith, ground arith), ground arith)),
          ))
      | inr has_b ↦ agree-IsGiven a b (ground arith) (ground arith) (ground arith) (ground arith)
    ]
  ]
]

-- A class that the hints give, or none, and then they give none.
pub class_of-merge_hints-IsGiven :
    (a b : Option ClassHint) → IsGiven a b (class_of (merge_hints a b))
class_of-merge_hints-IsGiven none none = none-IsGiven
class_of-merge_hints-IsGiven (some a) none = one-IsGiven a
class_of-merge_hints-IsGiven none (some b) =
    rw (class_of-merge_hints_comm none (some b)) (comm-IsGiven (some b) none _ (one-IsGiven b))
class_of-merge_hints-IsGiven (some a) (some b) = two-IsGiven a b
