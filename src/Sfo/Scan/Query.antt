-- ===== src/Sfo/Scan/Query.antt =====
-- sfo/client-access-sfoctl.c: a scan for candidates always ends, and, without an overflow, leaves
-- what the reference leaves.
use client_access.Prelude.{
  suc, ◌+◌, ◌≤◌, ◌≡◌, ◌∙◌, refl, sym, ap, Bool, true, false, Option, none, some, List, [], ◌∷◌, ltb,
  if◌then◌else◌, length, Bool-cases, ◌⊎◌, inl, inr, arith,
}
use client_access.Prelude.Word.{u32}
use mathlib.Core.Path.{ap₂}
use client_access.Sfo.Tuple.{Conntrack, hardware_offloaded}
use client_access.Sfo.Candidates.{Candidates}
use client_access.Sfo.Candidates.Chain.{mark_all, any_matches}
use client_access.Sfo.Scan.{
  cb_continue, cb_stop, Scan, CtList, append_if, deliver, is_full, count_entry, scan_cb, query_dump,
  max_conntrack_snapshot, match_entry, Dump, conntrack_scan, new_scan,
}
use client_access.Sfo.Scan.Marking.{IsTracked, deliver-room, marked, match_entry-marked}
use client_access.Sfo.Scan.Reference.{
  mark_dump, hits, count_if, extended, hits-mark_all, mark_all-IsTracked, extended-nil,
  extended-append, append_if-room,
}

-- A scan for the candidates `s`, whose callback has not said STOP.
abbrev pub IsRunning : Scan → Candidates → Type 0
IsRunning scan s =
    (scan.offloaded_only ≡ false)
    × (scan.candidates ≡ some s)
    × (is_full scan.matches ≡ false)
    × (scan.entries ≤ max_conntrack_snapshot)
    × (scan.hardware ≤ scan.entries)

abbrev pub counted : Conntrack → Scan → Scan
counted ct scan = count_entry ct (record scan { entries = u32 (suc scan.entries) })

pub scan_cb-over :
    (copied : Bool) (ct : Conntrack) (scan : Scan)
    → ltb max_conntrack_snapshot (u32 (suc scan.entries)) ≡ true
    → scan_cb copied ct scan
      ≡ some (record scan { entries = u32 (suc scan.entries); snapshot_overflow = true }, cb_stop)
unfolding scan_cb
scan_cb-over copied ct scan over = simp (over, scan_cb)

pub scan_cb-marked :
    (copied : Bool) (ct : Conntrack) (scan : Scan) (s : Candidates)
    → IsRunning scan s
    → IsTracked s
    → ltb max_conntrack_snapshot (u32 (suc scan.entries)) ≡ false
    → scan_cb copied ct scan ≡ some (deliver (marked copied ct (counted ct scan) s))
unfolding scan_cb count_entry
scan_cb-marked copied ct scan s (mode, own, room, few, hard) tracked under =
    let opened : scan_cb copied ct scan ≡ match_entry copied ct (counted ct scan) =
      simp (under, mode, scan_cb) in
    opened ∙ match_entry-marked copied ct (counted ct scan) s tracked own room

-- What a scan without an overflow leaves.
abbrev pub IsReference :
    (entries : List (Conntrack × Bool)) (before : Scan) → Candidates → Scan → Type 0
IsReference entries before s after =
    (after.candidates ≡ some (record s { items = mark_dump entries s.items }))
    × IsTracked (record s { items = mark_dump entries s.items })
    × (after.matches ≡ extended before.matches (hits s.items entries))
    × (after.hardware ≡ before.hardware + count_if hardware_offloaded entries)
    × (after.entries ≡ before.entries + length entries)

pub hardware-step :
    (ct : Conntrack) (scan : Scan)
    → scan.entries ≤ max_conntrack_snapshot
    → scan.hardware ≤ scan.entries
    → ((counted ct scan).hardware ≡ scan.hardware + (if hardware_offloaded ct then 1 else 0))
      × ((counted ct scan).entries ≡ suc scan.entries)
unfolding count_entry
hardware-step ct scan few hard = elim (Bool-cases (hardware_offloaded ct)) [
  | inl set ↦ (rw set (omega arith), omega arith)
  | inr clear ↦ (rw clear (omega arith), omega arith)
]

extended-hits :
    (copied : Bool) (ct : Conntrack) (m : Option CtList) (s : Candidates)
    → (rest : List (Conntrack × Bool))
    → is_full (append_if (any_matches ct s.items) copied ct m) ≡ false
    → extended (append_if (any_matches ct s.items) copied ct m) (hits (mark_all ct s.items) rest)
      ≡ extended m (hits s.items ((ct, copied) ∷ rest))
unfolding hits
extended-hits copied ct m s rest free =
    ap₂ extended (append_if-room (any_matches ct s.items) copied ct m free)
      (hits-mark_all ct s.items rest)
    ∙ extended-append m (if any_matches ct s.items then ct ∷ [] else []) (hits s.items rest)
    ∙ ap (extended m) (elim (Bool-cases (any_matches ct s.items)) [
      | inl hit ↦ rw hit refl
      | inr miss ↦ rw miss refl
    ])

pub query_dump-stop :
    (copied : Bool) (ct : Conntrack) (rest : List (Conntrack × Bool)) (scan after : Scan)
    → scan_cb copied ct scan ≡ some (after, cb_stop)
    → query_dump ((ct, copied) ∷ rest) scan ≡ some after
unfolding query_dump
query_dump-stop copied ct rest scan after h = simp (h, query_dump)

pub query_dump-continue :
    (copied : Bool) (ct : Conntrack) (rest : List (Conntrack × Bool)) (scan after : Scan)
    → scan_cb copied ct scan ≡ some (after, cb_continue)
    → query_dump ((ct, copied) ∷ rest) scan ≡ query_dump rest after
unfolding query_dump
query_dump-continue copied ct rest scan after h = simp (h, query_dump)

pub deliver-full : (scan : Scan) → is_full scan.matches ≡ true → deliver scan ≡ (scan, cb_stop)
deliver-full scan full = rw full refl

-- There was room for the matches: the list has not overflowed, or there is none.
abbrev pub HasRoom : Scan → Scan → Type 0
HasRoom before after = (is_full after.matches ≡ false) ⊎ (before.matches ≡ none)

marked-no_list :
    (copied : Bool) (ct : Conntrack) (scan : Scan) (s : Candidates)
    → scan.matches ≡ none
    → (marked copied ct (counted ct scan) s).matches ≡ none
unfolding append_if count_entry
marked-no_list copied ct scan s absent = ap (append_if (any_matches ct s.items) copied ct) absent

full-HasRoom :
    (copied : Bool) (ct : Conntrack) (scan : Scan) (s : Candidates)
    → is_full (marked copied ct (counted ct scan) s).matches ≡ true
    → ¬ HasRoom scan (marked copied ct (counted ct scan) s)
full-HasRoom copied ct scan s full (inl free) = absurd (ground arith)
full-HasRoom copied ct scan s full (inr absent) =
    let quiet = ap is_full (marked-no_list copied ct scan s absent) in absurd (ground arith)

next-HasRoom :
    (copied : Bool) (ct : Conntrack) (scan after : Scan) (s : Candidates)
    → HasRoom scan after
    → HasRoom (marked copied ct (counted ct scan) s) after
next-HasRoom copied ct scan after s (inl free) = inl free
next-HasRoom copied ct scan after s (inr absent) = inr (marked-no_list copied ct scan s absent)

pub query_dump-IsReference :
    (entries : List (Conntrack × Bool)) (scan : Scan) (s : Candidates)
    → IsRunning scan s
    → IsTracked s
    → (after : Scan) × (query_dump entries scan ≡ some after)
      × (after.snapshot_overflow ≡ false → HasRoom scan after → IsReference entries scan s after)
unfolding query_dump mark_dump hits count_if count_entry
query_dump-IsReference [] scan s (mode, own, room, few, hard) tracked =
    (scan, refl, λ _ _. (own, tracked, sym (extended-nil scan.matches), omega arith, omega arith))
query_dump-IsReference ((ct, copied) ∷ rest) scan s running tracked =
    elim (Bool-cases (ltb max_conntrack_snapshot (u32 (suc scan.entries)))) [
      | inl over ↦ (
        record scan { entries = u32 (suc scan.entries); snapshot_overflow = true },
        query_dump-stop copied ct rest scan _ (scan_cb-over copied ct scan over),
        λ no_overflow. absurd (ground arith),
      )
      | inr under ↦
          let now = marked copied ct (counted ct scan) s in
          let step = scan_cb-marked copied ct scan s running tracked under in
          let (mode, own, room, few, hard) = running in
          let (hard', seen) = hardware-step ct scan few hard in
          elim (Bool-cases (is_full now.matches)) [
            | inl full ↦ (
              now,
              query_dump-stop copied ct rest scan now (step ∙ ap some (deliver-full now full)),
              λ _ cond. absurd (full-HasRoom copied ct scan s full cond),
            )
            | inr free ↦
                let (after, e, left) =
                  query_dump-IsReference rest now (record s { items = mark_all ct s.items })
                    (mode, refl, free, ground arith, ground arith)
                    (mark_all-IsTracked ct s tracked) in
                (
                  after,
                  query_dump-continue copied ct rest scan now
                        (step ∙ ap some (deliver-room now free))
                      ∙ e,
                  λ no_overflow still.
                      let (c, t, m, h, n) =
                        left no_overflow (next-HasRoom copied ct scan after s still) in
                      (
                        c,
                        t,
                        m ∙ extended-hits copied ct scan.matches s rest free,
                        omega (arith, h, hard'),
                        omega (arith, n, seen),
                      ),
                )
          ]
    ]

-- A scan for a set whose chains it can follow, with a list of matches that has not overflowed or
-- with none, ends. If it succeeds without an overflow, then it has counted the whole dump, and its
-- marks, its list of matches and its count of hardware offload are those of a scan that tries every
-- candidate on every entry.
pub conntrack_scan-IsReference :
    (dump : Dump) (s : Candidates) (matches : Option CtList)
    → IsTracked s
    → is_full matches ≡ false
    → (after : Scan) × (ok : Bool) × (conntrack_scan dump (new_scan (some s) matches false)
        ≡ some (after, ok))
      × (ok ≡ true
          → after.snapshot_overflow ≡ false
          → HasRoom (new_scan (some s) matches false) after
          → IsReference dump.entries (new_scan (some s) matches false) s after)
unfolding conntrack_scan
conntrack_scan-IsReference dump s matches tracked room =
    let scan = new_scan (some s) matches false in
    elim (Bool-cases dump.opens) [
      | inr closed ↦ (scan, false, simp (closed, conntrack_scan), λ ok. absurd (ground arith))
      | inl opened ↦ elim (Bool-cases dump.registers) [
        | inr refused ↦
            (scan, false, simp (opened, refused, conntrack_scan), λ ok. absurd (ground arith))
        | inl ready ↦
            let (after, e, left) =
              query_dump-IsReference dump.entries scan s
                (refl, refl, room, omega arith, omega arith) tracked in
            (after, dump.succeeds, simp (opened, ready, e, conntrack_scan), λ _. left)
      ]
    ]
