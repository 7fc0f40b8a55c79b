-- ===== src/Sfo/Scan/Records.antt =====
-- sfo/client-access-sfoctl.c: scans keep the records of the set, so that all passes of a command
-- look for the same flows; and what the counts of a scan say of the entries of the dump.
use client_access.Prelude.{
  ◌≡◌, ◌∙◌, refl, ap, Bool, true, false, List, [], ◌∷◌, if◌then◌else◌, In, Bool-cases, inl, inr,
  arith, map,
}
use mathlib.Core.Path.{subst}
use client_access.Sfo.Tuple.{Conntrack, supported_flow, tuple_matches}
use client_access.Sfo.Candidates.{Candidate, Candidates, clear_present}
use client_access.Sfo.Candidates.Chain.{mark_all, any_matches}
use client_access.Sfo.Candidates.Index.{clear_present-IsIndexed}
use client_access.Sfo.Candidates.Collect.{records}
use client_access.Sfo.Scan.Marking.{AllSupported, IsTracked}
use client_access.Sfo.Scan.Reference.{mark_dump, hits, count_if}

mark-record :
    (p : Bool) (c : Candidate)
    → records ((if p then record c { present = true } else c) ∷ []) ≡ records (c ∷ [])
mark-record true c = refl
mark-record false c = refl

records-mark_all :
    (ct : Conntrack) (items : List Candidate) → records (mark_all ct items) ≡ records items
unfolding mark_all
records-mark_all ct [] = refl
records-mark_all ct (c ∷ rest) = elim (Bool-cases (tuple_matches c.key ct)) [
  | inl hit ↦ rw hit (ap (λ r. (c.key, c.state) ∷ r) (records-mark_all ct rest))
  | inr miss ↦ rw miss (ap (λ r. (c.key, c.state) ∷ r) (records-mark_all ct rest))
]

pub records-mark_dump :
    (entries : List (Conntrack × Bool)) (items : List Candidate)
    → records (mark_dump entries items) ≡ records items
unfolding mark_dump
records-mark_dump [] items = refl
records-mark_dump ((ct, copied) ∷ rest) items =
    records-mark_dump rest (mark_all ct items) ∙ records-mark_all ct items

pub records-clear_present : (items : List Candidate) → records (clear_present items) ≡ records items
unfolding clear_present
records-clear_present [] = refl
records-clear_present (c ∷ rest) = ap (λ r. (c.key, c.state) ∷ r) (records-clear_present rest)

clear_present-AllSupported :
    (items : List Candidate) → AllSupported items → AllSupported (clear_present items)
unfolding clear_present
clear_present-AllSupported [] all d at = absurd at
clear_present-AllSupported (c ∷ rest) all d (inl here) =
    ap (λ x. supported_flow x.key) here ∙ all c (inl refl)
clear_present-AllSupported (c ∷ rest) all d (inr there) =
    clear_present-AllSupported rest (λ x at. all x (inr at)) d there

pub clear_present-IsTracked :
    (s : Candidates) → IsTracked s → IsTracked (record s { items = clear_present s.items })
unfolding clear_present
clear_present-IsTracked s (inl empty) = inl (rw empty refl)
clear_present-IsTracked s (inr (heads, built, indexed, all)) = inr (
  heads,
  built,
  clear_present-IsIndexed s.bucket_count heads s.items indexed,
  clear_present-AllSupported s.items all,
)

-- Every entry that is listed matches a record, and is of the dump.
pub In-hits :
    (items : List Candidate) (entries : List (Conntrack × Bool)) (ct : Conntrack)
    → In ct (hits items entries)
    → (any_matches ct items ≡ true) × In ct (map (λ e. e.0) entries)
unfolding hits
In-hits items [] ct at = absurd at
In-hits items ((e, copied) ∷ rest) ct at = elim (Bool-cases (any_matches e items)) [
  | inr miss ↦
      let (match, dumped) =
        In-hits items rest ct
          (subst (λ p. In ct (if p then e ∷ hits items rest else hits items rest)) miss at) in
      (match, inr dumped)
  | inl hit ↦
      elim (subst (λ p. In ct (if p then e ∷ hits items rest else hits items rest)) hit at) [
        | inl here ↦ (ap (λ x. any_matches x items) here ∙ hit, inl here)
        | inr there ↦ let (match, dumped) = In-hits items rest ct there in (match, inr dumped)
      ]
]

-- Where nothing is listed, no entry matches.
pub hits-none :
    (items : List Candidate) (entries : List (Conntrack × Bool)) (ct : Conntrack)
    → hits items entries ≡ []
    → In ct (map (λ e. e.0) entries)
    → any_matches ct items ≡ false
unfolding hits
hits-none items [] ct none_listed at = absurd at
hits-none items ((e, copied) ∷ rest) ct none_listed at = elim (Bool-cases (any_matches e items)) [
  | inl hit ↦ absurd (ground arith)
  | inr miss ↦ elim at [
    | inl here ↦ ap (λ x. any_matches x items) here ∙ miss
    | inr there ↦ hits-none items rest ct (simp miss at none_listed) there
  ]
]

pub count_if-none :
    (p : Conntrack → Bool) (entries : List (Conntrack × Bool)) (ct : Conntrack)
    → count_if p entries ≡ 0
    → In ct (map (λ e. e.0) entries)
    → p ct ≡ false
unfolding count_if
count_if-none p [] ct none_counted at = absurd at
count_if-none p ((e, copied) ∷ rest) ct none_counted (inl here) =
    let first : p e ≡ false = ground arith in ap p here ∙ first
count_if-none p ((e, copied) ∷ rest) ct none_counted (inr there) =
    count_if-none p rest ct (ground arith) there
