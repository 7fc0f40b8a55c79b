-- ===== src/Sfo/Scan/Marking.antt =====
-- sfo/client-access-sfoctl.c: the callback of a scan for candidates, through the index, against a
-- reference that tries every candidate on every entry.
use client_access.Prelude.{
  ℕ, ◌≡◌, ◌∙◌, refl, sym, ap, Bool, true, false, Option, none, some, List, [], ◌∷◌, In, Bool-cases,
  List-cases, ◌⊎◌, inl, inr, arith,
}
use mathlib.Core.Path.{ap₂}
use client_access.Sfo.Tuple.{Conntrack, supported_flow, supported_conntrack_tuple, tuple_matches}
use client_access.Sfo.Tuple.Hash.{tuple_matches-supported}
use client_access.Sfo.Candidates.{Candidate, Candidates, mark_candidates}
use client_access.Sfo.Candidates.Chain.{mark_all, any_matches}
use client_access.Sfo.Candidates.Index.{IsIndexed, mark_candidates-reference}
use client_access.Sfo.Scan.{cb_continue, Scan, CtList, append_if, deliver, is_full, match_entry}

abbrev pub AllSupported : List Candidate → Type 0
AllSupported items = (c : Candidate) → In c items → supported_flow c.key ≡ true

-- A set that the scan can use: empty, or well indexed.
abbrev pub IsTracked : Candidates → Type 0
IsTracked s =
    (s.items ≡ [])
    ⊎ (heads : ℕ → ℕ) × (s.buckets ≡ some heads)
      × IsIndexed s.bucket_count heads s.items
      × AllSupported s.items

none_matches :
    (ct : Conntrack) (items : List Candidate)
    → AllSupported items
    → supported_conntrack_tuple ct ≡ false
    → any_matches ct items ≡ false
unfolding any_matches
none_matches ct [] all out = refl
none_matches ct (c ∷ rest) all out = ground (
  arith,
  none_matches ct rest (λ d at. all d (inr at)) out,
  tuple_matches-supported c.key ct (all c (inl refl)),
)

pub mark_all-none :
    (ct : Conntrack) (items : List Candidate)
    → any_matches ct items ≡ false
    → mark_all ct items ≡ items
unfolding any_matches mark_all
mark_all-none ct [] out = refl
mark_all-none ct (c ∷ rest) out = elim (Bool-cases (tuple_matches c.key ct)) [
  | inl hit ↦ absurd (ground arith)
  | inr miss ↦
      let others : any_matches ct rest ≡ false = ground arith in
      rw miss (ap (λ r. c ∷ r) (mark_all-none ct rest others))
]

append_if-false :
    (copied : Bool) (ct : Conntrack) (matches : Option CtList)
    → append_if false copied ct matches ≡ matches
unfolding append_if
append_if-false copied ct none = refl
append_if-false copied ct (some list) = refl

pub deliver-room : (scan : Scan) → is_full scan.matches ≡ false → deliver scan ≡ (scan, cb_continue)
deliver-room scan room = rw room refl

-- The callback's result by the reference.
abbrev pub marked : (copied : Bool) → Conntrack → Scan → Candidates → Scan
marked copied ct scan s = record scan {
  candidates = some (record s { items = mark_all ct s.items });
  matches = append_if (any_matches ct s.items) copied ct scan.matches;
}

-- Where no candidate matches, the reference changes nothing.
marked-none :
    (copied : Bool) (ct : Conntrack) (scan : Scan) (s : Candidates)
    → scan.candidates ≡ some s
    → is_full scan.matches ≡ false
    → any_matches ct s.items ≡ false
    → deliver (marked copied ct scan s) ≡ (scan, cb_continue)
marked-none copied ct scan s own room out =
    let same : marked copied ct scan s ≡ scan =
      ap₂ (λ c m. record scan { candidates = c; matches = m })
        (ap (λ i. some (record s { items = i })) (mark_all-none ct s.items out) ∙ sym own)
        (ap (λ p. append_if p copied ct scan.matches) out
          ∙ append_if-false copied ct scan.matches) in
    ap deliver same ∙ deliver-room scan room

match_entry-indexed :
    (copied : Bool) (ct : Conntrack) (scan : Scan) (s : Candidates) (c : Candidate)
    → (rest items : List Candidate) (matched : Bool) (heads : ℕ → ℕ) → scan.candidates ≡ some s
    → s.items ≡ c ∷ rest
    → s.buckets ≡ some heads
    → supported_conntrack_tuple ct ≡ true
    → mark_candidates ct s heads ≡ some (items, matched)
    → match_entry copied ct scan
      ≡ some (
          deliver (record scan {
            candidates = some (record s { items = items });
            matches = append_if matched copied ct scan.matches;
          }))
unfolding match_entry
match_entry-indexed copied ct scan s c rest items matched heads own cons built ok found =
    simp (own, cons, built, ok, found, match_entry)

match_entry-skipped :
    (copied : Bool) (ct : Conntrack) (scan : Scan) (s : Candidates)
    → scan.candidates ≡ some s
    → (s.items ≡ []) ⊎ (supported_conntrack_tuple ct ≡ false)
    → match_entry copied ct scan ≡ some (scan, cb_continue)
unfolding match_entry
match_entry-skipped copied ct scan s own (inl empty) = simp (own, empty, match_entry)
match_entry-skipped copied ct scan s own (inr out) = elim (List-cases s.items) [
  | inl empty ↦ simp (own, empty, match_entry)
  | inr (c, rest, cons) ↦ simp (own, cons, out, match_entry)
]

pub match_entry-marked :
    (copied : Bool) (ct : Conntrack) (scan : Scan) (s : Candidates)
    → IsTracked s
    → scan.candidates ≡ some s
    → is_full scan.matches ≡ false
    → match_entry copied ct scan ≡ some (deliver (marked copied ct scan s))
unfolding any_matches
match_entry-marked copied ct scan s (inl empty) own room =
    let out : any_matches ct s.items ≡ false = rw empty refl in
    match_entry-skipped copied ct scan s own (inl empty)
    ∙ ap some (sym (marked-none copied ct scan s own room out))
match_entry-marked copied ct scan s (inr (heads, built, indexed, all)) own room =
    elim (Bool-cases (supported_conntrack_tuple ct)) [
      | inr other ↦
          match_entry-skipped copied ct scan s own (inr other)
          ∙ ap some
              (sym (marked-none copied ct scan s own room (none_matches ct s.items all other)))
      | inl ok ↦ elim (List-cases s.items) [
        | inl empty ↦
            let out : any_matches ct s.items ≡ false = rw empty refl in
            match_entry-skipped copied ct scan s own (inl empty)
            ∙ ap some (sym (marked-none copied ct scan s own room out))
        | inr (c, rest, cons) ↦
            match_entry-indexed copied ct scan s c rest (mark_all ct s.items)
              (any_matches ct s.items) heads own cons built ok
              (mark_candidates-reference ct s heads indexed)
      ]
    ]
