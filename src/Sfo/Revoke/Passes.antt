-- ===== src/Sfo/Revoke/Passes.antt =====
-- sfo/client-access-sfoctl.c: the passes of `run_revoke` end, ask only for entries of the flows that
-- are revoked, and report success only after a scan that found no such entry.
use client_access.Prelude.{
  ℕ, zero, suc, ◌+◌, ◌≤◌, ◌<◌, ◌^◌, ◌≡◌, ◌∙◌, refl, sym, ap, Bool, true, false, Option, none, some,
  List, [], ◌++◌, map, In, In-append, Bool-cases, ◌⊎◌, inl, inr, arith,
}
use client_access.Prelude.Word.{u32}
use mathlib.Core.Path.{subst}
use client_access.Sfo.Tuple.{Conntrack, hardware_offloaded}
use client_access.Sfo.Candidates.{Candidate, Candidates, clear_present, max_candidates}
use client_access.Sfo.Candidates.Chain.{any_matches}
use client_access.Sfo.Candidates.Collect.{records, any_matches-records}
use client_access.Sfo.Scan.{Scan, Dump, CtList, is_full, new_scan, new_list}
use client_access.Sfo.Scan.Marking.{IsTracked}
use client_access.Sfo.Scan.Reference.{mark_dump, hits}
use client_access.Sfo.Scan.Read.{IsRead, conntrack_scan-IsRead}
use client_access.Sfo.Scan.Query.{IsReference, conntrack_scan-IsReference}
use client_access.Sfo.Scan.Records.{
  records-mark_dump, records-clear_present, clear_present-IsTracked, In-hits, hits-none,
  count_if-none,
}
use client_access.Sfo.Report.{Report, Pass, complete, settle, list_in, list_of}
use client_access.Sfo.Report.Settle.{IsGood, Settles, settle-Settles}
use client_access.Sfo.Revoke.{set_in, candidates_of, revoke_scan, revoke_passes}

-- The entries that a dump delivers.
abbrev pub dumped : Dump → List Conntrack
dumped dump = map (λ e. e.0) dump.entries

-- No entry of the table is of those that are looked for, or offloaded to hardware.
abbrev pub IsClean : (hit : Conntrack → Bool) → Dump → Type 0
IsClean hit dump =
    (ct : Conntrack) → In ct (dumped dump) → (hit ct ≡ false) × (hardware_offloaded ct ≡ false)

-- What a scan that is used finds: the entries that are looked for.
abbrev pub Looks : (hit : Conntrack → Bool) → Dump → Scan → Type 0
Looks hit dump scan =
    ((ct : Conntrack) → In ct (list_of scan).items → (hit ct ≡ true) × In ct (dumped dump))
    × ((list_of scan).items ≡ [] → scan.hardware ≡ 0 → IsClean hit dump)

-- An entry of one of the records.
abbrev pub of_records : List Candidate → Conntrack → Bool
of_records items ct = any_matches ct items

pub is_full-list_in : (m : Option CtList) → is_full m ≡ (list_in m).overflow
is_full-list_in none = refl
is_full-list_in (some list) = refl

-- What a pass finds, if its scan is used: the entries of the records, and a set for the next pass.
abbrev pub Finds : (items : List Candidate) → Dump → Scan → Candidates → Type 0
Finds items dump scan s =
    Looks (of_records items) dump scan
    × IsTracked (candidates_of scan s)
    × (records (candidates_of scan s).items ≡ records items)

pub reference-Finds :
    (dump : Dump) (scan : Scan) (s cleared : Candidates) (items : List Candidate)
    → records cleared.items ≡ records items
    → IsReference dump.entries
        (new_scan (some cleared) (some (new_list max_candidates)) false)
        cleared
        scan
    → Finds items dump scan s
reference-Finds dump scan s cleared items same (own, tracked, listed, hard, seen) =
    let entries = dump.entries in
    let all : (list_of scan).items ≡ hits cleared.items entries =
      ap (λ m. (list_in m).items) listed in
    let set = record cleared { items = mark_dump entries cleared.items } in
    let at : candidates_of scan s ≡ set = ap (set_in s) own in
    (
      (
        λ ct there.
            let (match, from) = In-hits cleared.items entries ct (subst (In ct) all there) in
            (sym (any_matches-records ct cleared.items items same) ∙ match, from),
        λ empty soft ct there. (
          sym (any_matches-records ct cleared.items items same)
              ∙ hits-none cleared.items entries ct (sym all ∙ empty) there,
          count_if-none hardware_offloaded entries ct (omega (arith, hard, soft)) there,
        ),
      ),
      subst IsTracked (sym at) tracked,
      ap (λ c. records c.items) at ∙ records-mark_dump entries cleared.items ∙ same,
    )

revoke_scan-Finds :
    (pass : Pass) (s : Candidates) (items : List Candidate)
    → IsTracked s
    → records s.items ≡ records items
    → (scan : Scan) × (ok : Bool) × (revoke_scan pass s ≡ some (scan, ok))
      × (IsGood scan ok → Finds items pass.dump scan s)
revoke_scan-Finds pass s items tracked same =
    let cleared = record s { items = clear_present s.items } in
    let (scan, ok, e, found) =
      conntrack_scan-IsReference pass.dump cleared (some (new_list max_candidates))
        (clear_present-IsTracked s tracked) refl in
    (
      scan,
      ok,
      e,
      λ (fine, whole, room).
          reference-Finds pass.dump scan s cleared items (records-clear_present s.items ∙ same)
            (found fine whole (inl (is_full-list_in scan.matches ∙ room))),
    )

-- What the passes from number `i` on do.
abbrev pub Revokes :
    (left : ℕ)
    → (pass : ℕ → Pass) → (i : ℕ) → (hit : Conntrack → Bool) → Report
    → List Conntrack
    → Report
    → List Conntrack
    → Type 0
Revokes left pass i hit report asked report' asked' =
    (report'.verification_passes ≤ report.verification_passes + left)
    × (report'.result ≡ complete
        → (report.result ≡ complete)
          ⊎ (j : ℕ) × (j < i + left) × IsRead (pass j).dump × IsClean hit (pass j).dump)
    × ((ct : Conntrack)
        → In ct asked'
        → In ct asked ⊎ (hit ct ≡ true) × (j : ℕ) × (j < i + left) × In ct (dumped (pass j).dump))

-- One pass.
pub pass-Revokes :
    (pass : ℕ → Pass) (i : ℕ) (hit : Conntrack → Bool)
    → (scan : Scan) (ok : Bool)
    → (report : Report) (asked : List Conntrack) (out : Report × List Conntrack × Bool)
    → report.verification_passes + 1 < 2 ^ 32
    → (ok ≡ true → IsRead (pass i).dump)
    → (IsGood scan ok → Looks hit (pass i).dump scan)
    → Settles scan ok
        (record report { verification_passes = u32 (suc report.verification_passes) })
        out
    → Revokes 1 pass i hit report asked out.0 (asked ++ out.1)
pass-Revokes pass i hit scan ok report asked out few read found (passes, done, asks, on) = (
  omega (arith, passes),
  λ end. elim (done end) [
    | inl before ↦ inl before
    | inr (good, soft, empty) ↦ inr (i, omega arith, read good.0, (found good).1 empty soft)
  ],
  λ ct at. elim (In-append ct asked out.1 at) [
    | inl old ↦ inl old
    | inr new ↦
        let (good, listed) = asks ct new in
        let (match, from) = (found good).0 ct listed in inr (match, i, omega arith, from)
  ],
)

pub Revokes-then :
    (left : ℕ) (pass : ℕ → Pass) (i : ℕ) (hit : Conntrack → Bool)
    → (r0 r1 r2 : Report) (a0 a1 a2 : List Conntrack) → Revokes 1 pass i hit r0 a0 r1 a1
    → Revokes left pass (suc i) hit r1 a1 r2 a2
    → Revokes (suc left) pass i hit r0 a0 r2 a2
Revokes-then left pass i hit r0 r1 r2 a0 a1 a2 (p, d, a) (p', d', a') = (
  omega arith,
  λ end. elim (d' end) [
    | inl before ↦ elim (d before) [
      | inl first ↦ inl first
      | inr (j, below, read, clean) ↦ inr (j, omega arith, read, clean)
    ]
    | inr (j, below, read, clean) ↦ inr (j, omega arith, read, clean)
  ],
  λ ct at. elim (a' ct at) [
    | inl before ↦ elim (a ct before) [
      | inl first ↦ inl first
      | inr (match, j, below, from) ↦ inr (match, j, omega arith, from)
    ]
    | inr (match, j, below, from) ↦ inr (match, j, omega arith, from)
  ],
)

-- Fewer passes are allowed ones too.
pub Revokes-more :
    (left : ℕ) (pass : ℕ → Pass) (i : ℕ) (hit : Conntrack → Bool)
    → (r0 r1 : Report) (a0 a1 : List Conntrack) → Revokes 1 pass i hit r0 a0 r1 a1
    → Revokes (suc left) pass i hit r0 a0 r1 a1
Revokes-more left pass i hit r0 r1 a0 a1 one =
    Revokes-then left pass i hit r0 r1 r1 a0 a1 a1 one
      (omega arith, λ end. inl end, λ ct at. inl at)

pub revoke_passes-Revokes :
    (left : ℕ) (pass : ℕ → Pass) (start deadline_ms i : ℕ) (s : Candidates)
    → (items : List Candidate) (report : Report) (asked : List Conntrack) → IsTracked s
    → records s.items ≡ records items
    → report.verification_passes + left < 2 ^ 32
    → (report' : Report) × (asked' : List Conntrack) × (revoke_passes left pass start deadline_ms i
          s report asked
        ≡ some (report', asked'))
      × Revokes left pass i (of_records items) report asked report' asked'
unfolding revoke_passes
revoke_passes-Revokes zero pass start deadline_ms i s items report asked tracked same few =
    (report, asked, refl, (omega arith, λ done. inl done, λ ct at. inl at))
revoke_passes-Revokes (suc left) pass start deadline_ms i s items report asked tracked same few =
    let begun = record report { verification_passes = u32 (suc report.verification_passes) } in
    let (scan, ok, e, found) = revoke_scan-Finds (pass i) s items tracked same in
    let settles = settle-Settles (pass i) start deadline_ms false scan ok begun in
    let out = settle (pass i) start deadline_ms false scan ok begun in
    let one =
      pass-Revokes pass i (of_records items) scan ok report asked out (omega arith)
        (conntrack_scan-IsRead (pass i).dump _ scan ok e) (λ good. (found good).0) settles in
    elim (Bool-cases out.2) [
      | inr stop ↦ (
        out.0,
        asked ++ out.1,
        rw (e, stop, revoke_passes) refl,
        Revokes-more left pass i (of_records items) report out.0 asked (asked ++ out.1) one,
      )
      | inl again ↦
          let (good, _) = settles.3 again in
          let (_, tracked', same') = found good in
          let passes : out.0.verification_passes ≤ report.verification_passes + 1 = one.0 in
          let (report', asked', rest, later) =
            revoke_passes-Revokes left pass start deadline_ms (suc i) (candidates_of scan s) items
              out.0 (asked ++ out.1) tracked' same' (omega arith) in
          (
            report',
            asked',
            rw (e, again, revoke_passes) rest,
            Revokes-then left pass i (of_records items) report out.0 report' asked (asked ++ out.1)
                asked' one later,
          )
    ]
