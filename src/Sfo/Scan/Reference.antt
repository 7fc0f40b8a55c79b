-- ===== src/Sfo/Scan/Reference.antt =====
-- sfo/client-access-sfoctl.c: what a whole dump leaves, against a reference that tries every
-- candidate on every entry.
use client_access.Prelude.{
  ℕ, ◌+◌, ◌≡◌, ◌∙◌, refl, sym, ap, Bool, true, false, ◌||◌, Option, none, some, List, [], ◌∷◌, ◌++◌,
  leb, if◌then◌else◌, length, Bool-cases, inl, inr, arith,
}
use mathlib.Core.Path.{ap₂}
use client_access.Sfo.Tuple.{Conntrack, supported_flow, tuple_matches}
use client_access.Sfo.Candidates.{Candidate, Candidates}
use client_access.Sfo.Candidates.Chain.{mark_all, any_matches}
use client_access.Sfo.Candidates.Index.{mark-key, mark_all-IsIndexed}
use client_access.Sfo.Scan.{CtList, append_ct, append_if, is_full}
use client_access.Sfo.Scan.Marking.{AllSupported, IsTracked}

-- Every candidate against every entry.
unfoldable pub mark_dump : List (Conntrack × Bool) → List Candidate → List Candidate
mark_dump [] items = items
mark_dump ((ct, copied) ∷ rest) items = mark_dump rest (mark_all ct items)

unfoldable pub hits : List Candidate → List (Conntrack × Bool) → List Conntrack
hits items [] = []
hits items ((ct, copied) ∷ rest) =
    if any_matches ct items then ct ∷ hits items rest else hits items rest

unfoldable pub count_if : (Conntrack → Bool) → List (Conntrack × Bool) → ℕ
count_if p [] = 0
count_if p ((ct, copied) ∷ rest) = (if p ct then 1 else 0) + count_if p rest

abbrev pub extended : Option CtList → List Conntrack → Option CtList
extended none more = none
extended (some list) more = some (record list { items = list.items ++ more })

any_matches-mark_all :
    (ct ct' : Conntrack) (items : List Candidate)
    → any_matches ct (mark_all ct' items) ≡ any_matches ct items
unfolding any_matches mark_all
any_matches-mark_all ct ct' [] = refl
any_matches-mark_all ct ct' (c ∷ rest) =
    ap₂ (λ k r. tuple_matches k ct || r) (mark-key (tuple_matches c.key ct') c).0
      (any_matches-mark_all ct ct' rest)

pub hits-mark_all :
    (ct : Conntrack) (items : List Candidate) (entries : List (Conntrack × Bool))
    → hits (mark_all ct items) entries ≡ hits items entries
unfolding hits
hits-mark_all ct items [] = refl
hits-mark_all ct items ((e, copied) ∷ rest) =
    ap₂ (λ p r. if p then e ∷ r else r) (any_matches-mark_all e ct items)
      (hits-mark_all ct items rest)

mark_all-AllSupported :
    (ct : Conntrack) (items : List Candidate)
    → AllSupported items
    → AllSupported (mark_all ct items)
unfolding mark_all
mark_all-AllSupported ct [] all d at = absurd at
mark_all-AllSupported ct (c ∷ rest) all d (inl here) =
    ap supported_flow (ap (λ x. x.key) here ∙ (mark-key (tuple_matches c.key ct) c).0)
    ∙ all c (inl refl)
mark_all-AllSupported ct (c ∷ rest) all d (inr there) =
    mark_all-AllSupported ct rest (λ x at. all x (inr at)) d there

pub mark_all-IsTracked :
    (ct : Conntrack) (s : Candidates)
    → IsTracked s
    → IsTracked (record s { items = mark_all ct s.items })
unfolding mark_all
mark_all-IsTracked ct s (inl empty) = inl (rw empty refl)
mark_all-IsTracked ct s (inr (heads, built, indexed, all)) = inr (
  heads,
  built,
  mark_all-IsIndexed s.bucket_count heads ct s.items indexed,
  mark_all-AllSupported ct s.items all,
)

append-nil : (xs : List Conntrack) → xs ++ [] ≡ xs
append-nil [] = refl
append-nil (x ∷ rest) = ap (λ r. x ∷ r) (append-nil rest)

append_assoc : (xs ys zs : List Conntrack) → (xs ++ ys) ++ zs ≡ xs ++ (ys ++ zs)
append_assoc [] ys zs = refl
append_assoc (x ∷ rest) ys zs = ap (λ r. x ∷ r) (append_assoc rest ys zs)

pub extended-nil : (m : Option CtList) → extended m [] ≡ m
extended-nil none = refl
extended-nil (some list) = ap (λ i. some (record list { items = i })) (append-nil list.items)

pub extended-append :
    (m : Option CtList) (a b : List Conntrack) → extended (extended m a) b ≡ extended m (a ++ b)
extended-append none a b = refl
extended-append (some list) a b =
    ap (λ i. some (record list { items = i })) (append_assoc list.items a b)

-- An append that leaves room for more has copied the entry.
append_ct-room :
    (copied : Bool) (ct : Conntrack) (list : CtList)
    → (append_ct copied ct list).overflow ≡ false
    → append_ct copied ct list ≡ record list { items = list.items ++ (ct ∷ []) }
unfolding append_ct
append_ct-room copied ct list room = elim (Bool-cases (leb list.capacity (length list.items))) [
  | inl full ↦ absurd (ground arith)
  | inr free ↦ elim (Bool-cases copied) [
    | inl made ↦ simp (free, made)
    | inr failed ↦ absurd (ground arith)
  ]
]

pub append_if-room :
    (p copied : Bool) (ct : Conntrack) (m : Option CtList)
    → is_full (append_if p copied ct m) ≡ false
    → append_if p copied ct m ≡ extended m (if p then ct ∷ [] else [])
unfolding append_if
append_if-room p copied ct none room = refl
append_if-room true copied ct (some list) room = ap some (append_ct-room copied ct list room)
append_if-room false copied ct (some list) room = sym (extended-nil (some list))
