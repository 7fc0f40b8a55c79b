-- ===== src/Sfo/Revoke/Live.antt =====
-- sfo/client-access-sfoctl.c: a revocation succeeds where the kernel does what it is asked for.
use client_access.Prelude.{
  ℕ, suc, ◌+◌, ◌≤◌, ◌≡◌, ◌∙◌, refl, ap, Bool, true, false, some, List, [], ◌∷◌, ◌++◌, leb, ltb,
  if◌then◌else◌, length, length-append, Bool-cases, inl, inr, arith,
}
use client_access.Prelude.Word.{u32}
use client_access.Sfo.Tuple.{Conntrack}
use client_access.Sfo.Candidates.{Candidate, Candidates}
use client_access.Sfo.Candidates.Chain.{mark_all, any_matches}
use client_access.Sfo.Scan.{
  Scan, CtList, append_ct, append_if, is_full, query_dump, count_entry, max_conntrack_snapshot,
}
use client_access.Sfo.Scan.Marking.{IsTracked, marked, deliver-room}
use client_access.Sfo.Scan.Reference.{hits, hits-mark_all, mark_all-IsTracked}
use client_access.Sfo.Scan.Query.{
  IsRunning, counted, scan_cb-marked, query_dump-continue, hardware-step,
}

-- Every entry can be copied.
abbrev pub AllCopied : List (Conntrack × Bool) → Type 0
AllCopied [] = Unit
AllCopied ((ct, copied) ∷ rest) = (copied ≡ true) × AllCopied rest

-- The list after an entry, and its room.
append_if-fits :
    (p copied : Bool) (ct : Conntrack) (list : CtList) (more : ℕ)
    → copied ≡ true
    → list.overflow ≡ false
    → length list.items + ((if p then 1 else 0) + more) ≤ list.capacity
    → (after : CtList) × (append_if p copied ct (some list) ≡ some after)
      × (after.overflow ≡ false)
      × (length after.items + more ≤ after.capacity)
unfolding append_if append_ct
append_if-fits false copied ct list more made free room = (list, refl, free, omega arith)
append_if-fits true copied ct list more made free room =
    let below : leb list.capacity (length list.items) ≡ false = ground arith in
    (
      record list { items = list.items ++ (ct ∷ []) },
      simp (below, made, append_ct),
      free,
      omega (arith, length-append list.items (ct ∷ [])),
    )

length-hits :
    (items : List Candidate) (ct : Conntrack) (copied : Bool) (rest : List (Conntrack × Bool))
    → length (hits items ((ct, copied) ∷ rest))
      ≡ (if any_matches ct items then 1 else 0) + length (hits items rest)
unfolding hits
length-hits items ct copied rest = elim (Bool-cases (any_matches ct items)) [
  | inl hit ↦ rw hit (omega arith)
  | inr miss ↦ rw miss (omega arith)
]

pub query_dump-fits :
    (entries : List (Conntrack × Bool)) (scan : Scan) (s : Candidates) (list : CtList)
    → IsRunning scan s
    → IsTracked s
    → scan.matches ≡ some list
    → list.overflow ≡ false
    → scan.snapshot_overflow ≡ false
    → AllCopied entries
    → scan.entries + length entries ≤ max_conntrack_snapshot
    → length list.items + length (hits s.items entries) ≤ list.capacity
    → (after : Scan) × (query_dump entries scan ≡ some after)
      × (after.snapshot_overflow ≡ false)
      × (is_full after.matches ≡ false)
unfolding query_dump count_entry hits
query_dump-fits [] scan s list running tracked own free whole copied few room =
    (scan, refl, whole, ap is_full own ∙ free)
query_dump-fits ((ct, c) ∷ rest) scan s list running tracked own free whole (made, others) few
      room =
    let (mode, set, open_list, small, hard) = running in
    let (hard', seen) = hardware-step ct scan small hard in
    let under : ltb max_conntrack_snapshot (u32 (suc scan.entries)) ≡ false = ground arith in
    let now = marked c ct (counted ct scan) s in
    let step = scan_cb-marked c ct scan s running tracked under in
    let (list', e, free', room') =
      append_if-fits (any_matches ct s.items) c ct list (length (hits s.items rest)) made free
        (omega (arith, length-hits s.items ct c rest, room)) in
    let own' : now.matches ≡ some list' = ap (append_if (any_matches ct s.items) c ct) own ∙ e in
    let free_now : is_full now.matches ≡ false = ap is_full own' ∙ free' in
    let same : length (hits (mark_all ct s.items) rest) ≡ length (hits s.items rest) =
      ap length (hits-mark_all ct s.items rest) in
    let (after, rest_of, clean, fits) =
      query_dump-fits rest now (record s { items = mark_all ct s.items }) list'
        (mode, refl, free_now, ground arith, ground arith) (mark_all-IsTracked ct s tracked) own'
        free' whole others (omega (arith, seen, few)) (omega (arith, same, room')) in
    (
      after,
      query_dump-continue c ct rest scan now (step ∙ ap some (deliver-room now free_now)) ∙ rest_of,
      clean,
      fits,
    )
