-- ===== src/Sfo/Candidates/Collect.antt =====
-- sfo/client-access-sfoctl.c: `collect_candidates` gathers exactly the records that the command
-- asks for, and builds a set that the scan can use.
use client_access.Prelude.{
  ℕ, suc, ◌+◌, ◌≤◌, ◌<◌, ◌≡◌, ◌∙◌, refl, sym, ap, Bool, true, false, Option, none, some, List, [],
  ◌∷◌, ◌++◌, leb, if◌then◌else◌, length, length-append, In, Bool-cases, Option-cases, List-cases,
  inl, inr, arith, ◌||◌,
}
use mathlib.Core.Option
use mathlib.Core.Path.{subst, ap₂}
use client_access.Abi.{FlowKey, FlowState}
use client_access.Sfo.Tuple.{Conntrack, tuple_matches, supported_flow}
use client_access.Sfo.Candidates.{
  Candidate, Candidates, chain_end, Selection, selects, Flows, collect, empty_set,
  collect_candidates, index_candidates, bucket, set_bucket, link,
}
use client_access.Sfo.Candidates.Chain.{any_matches}
use client_access.Sfo.Scan.Marking.{IsTracked}
use client_access.Sfo.Candidates.Index.{
  index_candidates-indexed, index_candidates-IsIndexed, length-link, index_candidates-IsIndexed,
}

-- The record as it is put into the array.
abbrev pub fresh : FlowKey → FlowState → Candidate
fresh key state = record { key = key; state = state; next = 0; present = false }

-- The records that are asked for, in the order of the map.
unfoldable pub selected : Selection → List (FlowKey × Option FlowState) → List Candidate
selected wanted [] = []
selected wanted ((key, none) ∷ rest) = selected wanted rest
selected wanted ((key, some state) ∷ rest) =
    if selects wanted key state
    then fresh key state ∷ selected wanted rest
    else selected wanted rest

append-snoc :
    (xs : List Candidate) (c : Candidate) (ys : List Candidate)
    → (xs ++ (c ∷ [])) ++ ys ≡ xs ++ (c ∷ ys)
append-snoc [] c ys = refl
append-snoc (x ∷ rest) c ys = ap (λ r. x ∷ r) (append-snoc rest c ys)

append-nil : (xs : List Candidate) → xs ++ [] ≡ xs
append-nil [] = refl
append-nil (x ∷ rest) = ap (λ r. x ∷ r) (append-nil rest)

selects-supported :
    (wanted : Selection) (key : FlowKey) (state : FlowState)
    → selects wanted key state ≡ true
    → supported_flow key ≡ true
unfolding selects
selects-supported wanted key state h = ground arith

pub collect-selected :
    (capacity : ℕ) (wanted : Selection) (entries : List (FlowKey × Option FlowState))
    → (items : List Candidate) → length items ≤ capacity
    → collect capacity wanted entries items ≡ (
        if leb (length items + length (selected wanted entries)) capacity
        then some (items ++ selected wanted entries)
        else none)
unfolding collect selected
collect-selected capacity wanted [] items room =
    let fits : leb (length items + 0) capacity ≡ true = ground arith in
    rw (fits, append-nil items) refl
collect-selected capacity wanted ((key, none) ∷ rest) items room =
    collect-selected capacity wanted rest items room
collect-selected capacity wanted ((key, some state) ∷ rest) items room =
    let c = fresh key state in
    let all = selected wanted rest in
    elim (Bool-cases (selects wanted key state)) [
      | inr other ↦ rw (other, collect) (collect-selected capacity wanted rest items room)
      | inl asked ↦ elim (Bool-cases (leb capacity (length items))) [
        | inl full ↦
            let over : leb (length items + suc (length all)) capacity ≡ false = ground arith in
            rw (asked, full, collect, over) refl
        | inr free ↦
            let long : length (items ++ (c ∷ [])) ≡ suc (length items) =
              omega (arith, length-append items (c ∷ [])) in
            let room' : length (items ++ (c ∷ [])) ≤ capacity = ground arith in
            let sum : length (items ++ (c ∷ [])) + length all ≡ length items + suc (length all) =
              omega (arith, long) in
            rw (asked, free, collect)
              (collect-selected capacity wanted rest (items ++ (c ∷ [])) room'
                ∙ ap₂ (λ n out. if leb n capacity then some out else none) sum
                    (append-snoc items c all))
      ]
    ]

-- What the array says of the map.
abbrev pub records : List Candidate → List (FlowKey × FlowState)
records [] = []
records (c ∷ rest) = (c.key, c.state) ∷ records rest

pub In-records :
    (c : Candidate) (items : List Candidate) → In c items → In (c.key, c.state) (records items)
In-records c [] at = absurd at
In-records c (x ∷ rest) (inl here) = inl (ap (λ y. (y.key, y.state)) here)
In-records c (x ∷ rest) (inr there) = inr (In-records c rest there)

records-link :
    (n i : ℕ) (items : List Candidate) (heads : ℕ → ℕ)
    → records (link n i items heads).0 ≡ records items
unfolding link
records-link n i [] heads = refl
records-link n i (c ∷ rest) heads =
    ap (λ r. (c.key, c.state) ∷ r)
      (records-link n (suc i) rest (set_bucket heads (bucket n c.key) i))

any_record : Conntrack → List (FlowKey × FlowState) → Bool
any_record ct [] = false
any_record ct ((key, state) ∷ rest) = tuple_matches key ct || any_record ct rest

any_matches-record :
    (ct : Conntrack) (items : List Candidate) → any_matches ct items ≡ any_record ct (records items)
unfolding any_matches any_record
any_matches-record ct [] = refl
any_matches-record ct (c ∷ rest) =
    ap (λ r. tuple_matches c.key ct || r) (any_matches-record ct rest)

pub any_matches-records :
    (ct : Conntrack) (a b : List Candidate)
    → records a ≡ records b
    → any_matches ct a ≡ any_matches ct b
any_matches-records ct a b e =
    any_matches-record ct a ∙ ap (any_record ct) e ∙ sym (any_matches-record ct b)

selected-supported :
    (wanted : Selection) (entries : List (FlowKey × Option FlowState)) (r : FlowKey × FlowState)
    → In r (records (selected wanted entries))
    → selects wanted r.0 r.1 ≡ true
unfolding selected
selected-supported wanted [] r at = absurd at
selected-supported wanted ((key, none) ∷ rest) r at = selected-supported wanted rest r at
selected-supported wanted ((key, some state) ∷ rest) r at =
    let in_if = λ (p : Bool).
      In r (records (if p then fresh key state ∷ selected wanted rest else selected wanted rest)) in
    elim (Bool-cases (selects wanted key state)) [
      | inr other ↦ selected-supported wanted rest r (subst in_if other at)
      | inl asked ↦ elim (subst in_if asked at) [
        | inl here ↦ ap (λ x. selects wanted x.0 x.1) here ∙ asked
        | inr there ↦ selected-supported wanted rest r there
      ]
    ]

-- The records that are asked for, in a form that the scan can use.
abbrev pub IsCollected :
    List (FlowKey × Option FlowState) → Selection → (capacity : ℕ) → Candidates → Type 0
IsCollected entries wanted capacity s =
    (records s.items ≡ records (selected wanted entries))
    × (length s.items ≤ capacity)
    × IsTracked s

index_candidates-records :
    (memory : Bool) (s t : Candidates)
    → index_candidates memory s ≡ some t
    → (records t.items ≡ records s.items) × (length t.items ≡ length s.items)
index_candidates-records memory s t h =
    let (n, same) = index_candidates-indexed memory s t h in
    subst (λ t. (records t.items ≡ records s.items) × (length t.items ≡ length s.items)) same
      (records-link n 0 s.items (λ b. chain_end), length-link n 0 s.items (λ b. chain_end))

-- The array that the loop over the keys fills.
collect-some :
    (capacity : ℕ) (wanted : Selection) (entries : List (FlowKey × Option FlowState))
    → (items : List Candidate) → collect capacity wanted entries [] ≡ some items
    → (items ≡ selected wanted entries) × (length items ≤ capacity)
collect-some capacity wanted entries items h =
    let all = selected wanted entries in
    let whole = sym h ∙ collect-selected capacity wanted entries [] (omega arith) in
    elim (Bool-cases (leb (0 + length all) capacity)) [
      | inr over ↦ absurd (ground arith)
      | inl fits ↦
          let same : items ≡ all = Option.some-injective items all (whole ∙ rw fits refl) in
          (same, ground (arith, ap length same))
    ]

index-IsCollected :
    (entries : List (FlowKey × Option FlowState)) (wanted : Selection) (capacity : ℕ)
    → (memory : Bool) (items : List Candidate) (s : Candidates) → capacity < chain_end
    → collect capacity wanted entries [] ≡ some items
    → index_candidates memory (record (empty_set capacity) { items = items }) ≡ some s
    → IsCollected entries wanted capacity s
index-IsCollected entries wanted capacity memory items s small found built =
    let (all, few) = collect-some capacity wanted entries items found in
    let set = record (empty_set capacity) { items = items } in
    let (same, long) = index_candidates-records memory set s built in
    let (heads, at, indexed) = index_candidates-IsIndexed memory set s (omega arith) built in
    let kept : records s.items ≡ records (selected wanted entries) = same ∙ ap records all in
    (
      kept,
      omega (arith, long),
      inr (
        heads,
        at,
        indexed,
        λ c at. selects-supported wanted c.key c.state (
            selected-supported wanted entries (c.key, c.state)
              (subst (In (c.key, c.state)) kept (In-records c s.items at))),
      ),
    )

-- A set that is collected, within a capacity below the mark that ends a chain, holds the records of
-- the flow map that are asked for, in the order of the map and not more than its capacity, and its
-- chains are those that a scan can follow.
pub collect_candidates-IsCollected :
    (flows : Flows) (wanted : Selection) (capacity : ℕ) (s : Candidates)
    → capacity < chain_end
    → collect_candidates flows wanted capacity ≡ some s
    → IsCollected flows.entries wanted capacity s
unfolding collect_candidates selected
collect_candidates-IsCollected flows wanted capacity s small h = elim (Bool-cases flows.opens) [
  | inr closed ↦ absurd (ground arith)
  | inl opened ↦ elim (List-cases flows.entries) [
    | inl empty ↦ elim (Bool-cases flows.enoent) [
      | inr failed ↦ absurd (ground (arith, simp (opened, empty, failed) at h))
      | inl absent ↦
          let same : empty_set capacity ≡ s =
            Option.some-injective (empty_set capacity) s (simp (opened, empty, absent) at h) in
          subst (λ entries. IsCollected entries wanted capacity s) (sym empty)
            (subst (IsCollected [] wanted capacity) same (refl, omega arith, inl refl))
    ]
    | inr (e, rest, cons) ↦ elim (Option-cases (collect capacity wanted (e ∷ rest) [])) [
      | inl over ↦ absurd (ground (arith, simp (opened, cons, over) at h))
      | inr (items, found) ↦
          subst (λ entries. IsCollected entries wanted capacity s) (sym cons)
            (index-IsCollected (e ∷ rest) wanted capacity flows.memory items s small found
              (simp (opened, cons, found) at h))
    ]
  ]
]
