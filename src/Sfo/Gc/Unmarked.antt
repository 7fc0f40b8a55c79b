-- ===== src/Sfo/Gc/Unmarked.antt =====
-- sfo/client-access-sfoctl.c: a candidate that a scan left without a mark has no entry in the table,
-- and is of the flow map.
use client_access.Prelude.{
  ◌≡◌, ◌∙◌, refl, ap, Bool, true, false, Option, none, some, List, [], ◌∷◌, if◌then◌else◌, In, map,
  Bool-cases, inl, inr, arith,
}
use mathlib.Core.Path.{subst}
use client_access.Abi.{FlowKey, FlowState}
use client_access.Sfo.Tuple.{Conntrack, tuple_matches}
use client_access.Sfo.Candidates.{Candidate, Selection, selects}
use client_access.Sfo.Candidates.Chain.{mark_all}
use client_access.Sfo.Candidates.Collect.{fresh, selected, records}
use client_access.Sfo.Scan.Reference.{mark_dump}

-- A candidate without a mark was there before, and the entry does not match it.
mark_all-unmarked :
    (ct : Conntrack) (items : List Candidate) (d : Candidate)
    → In d (mark_all ct items)
    → d.present ≡ false
    → In d items × (tuple_matches d.key ct ≡ false)
unfolding mark_all
mark_all-unmarked ct [] d at clear = absurd at
mark_all-unmarked ct (c ∷ rest) d (inl here) clear = elim (Bool-cases (tuple_matches c.key ct)) [
  | inl hit ↦
      let marked : d ≡ record c { present = true } = here ∙ rw hit refl in
      let set : d.present ≡ true = ap (λ x. x.present) marked in absurd (ground arith)
  | inr miss ↦
      let same : d ≡ c = here ∙ rw miss refl in
      (inl same, ap (λ x. tuple_matches x.key ct) same ∙ miss)
]
mark_all-unmarked ct (c ∷ rest) d (inr there) clear =
    let (old, miss) = mark_all-unmarked ct rest d there clear in (inr old, miss)

pub mark_dump-unmarked :
    (entries : List (Conntrack × Bool)) (items : List Candidate) (d : Candidate)
    → In d (mark_dump entries items)
    → d.present ≡ false
    → In d items
      × ((ct : Conntrack) → In ct (map (λ e. e.0) entries) → tuple_matches d.key ct ≡ false)
unfolding mark_dump
mark_dump-unmarked [] items d at clear = (at, λ ct none_there. absurd none_there)
mark_dump-unmarked ((e, copied) ∷ rest) items d at clear =
    let (marked, misses) = mark_dump-unmarked rest (mark_all e items) d at clear in
    let (old, miss) = mark_all-unmarked e items d marked clear in
    (
      old,
      λ ct there. elim there [
        | inl here ↦ ap (tuple_matches d.key) here ∙ miss
        | inr later ↦ misses ct later
      ],
    )

pub In-selected :
    (wanted : Selection) (entries : List (FlowKey × Option FlowState)) (r : FlowKey × FlowState)
    → In r (records (selected wanted entries))
    → In (r.0, some r.1) entries
unfolding selected
In-selected wanted [] r at = absurd at
In-selected wanted ((key, none) ∷ rest) r at = inr (In-selected wanted rest r at)
In-selected wanted ((key, some state) ∷ rest) r at =
    let in_if = λ (p : Bool).
      In r (records (if p then fresh key state ∷ selected wanted rest else selected wanted rest)) in
    elim (Bool-cases (selects wanted key state)) [
      | inr other ↦ inr (In-selected wanted rest r (subst in_if other at))
      | inl asked ↦ elim (subst in_if asked at) [
        | inl here ↦ inl (ap (λ x. (x.0, some x.1)) here)
        | inr there ↦ inr (In-selected wanted rest r there)
      ]
    ]
