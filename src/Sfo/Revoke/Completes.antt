-- ===== src/Sfo/Revoke/Completes.antt =====
-- sfo/client-access-sfoctl.c: a revocation completes where its tables can be read, its requests are
-- granted, and the entries do not come back.
use client_access.Prelude.{
  ℕ, suc, ◌≤◌, ◌<◌, ◌≡◌, ◌∙◌, refl, sym, ap, Bool, true, false, not, ◌||◌, some, List, [], ◌∷◌,
  ◌==◌, ltb, if◌then◌else◌, length, ◌⊎◌, inl, inr, arith,
}
use client_access.Prelude.Word.{sub64}
use mathlib.Core.Option
use mathlib.Core.Path.{ap₂}
use client_access.Sfo.Tuple.{Conntrack, hardware_offloaded}
use client_access.Sfo.Candidates.{Candidate, Candidates, clear_present, max_candidates}
use client_access.Sfo.Candidates.Collect.{records, any_matches-records}
use client_access.Sfo.Scan.{
  Scan, Dump, is_full, conntrack_scan, new_scan, new_list, max_conntrack_snapshot,
}
use client_access.Sfo.Scan.Marking.{IsTracked}
use client_access.Sfo.Scan.Reference.{hits, count_if}
use client_access.Sfo.Scan.Query.{conntrack_scan-IsReference}
use client_access.Sfo.Scan.Records.{records-clear_present, clear_present-IsTracked}
use client_access.Sfo.Report.{
  Report, Pass, Answer, destroyed, absent, complete, settle, list_in, list_of, destroy,
  delete_conntracks, take_counts,
}
use client_access.Sfo.Report.Settle.{IsGood}
use client_access.Sfo.Revoke.{candidates_of, revoke_scan}
use client_access.Sfo.Revoke.Passes.{is_full-list_in, reference-Finds}
use client_access.Sfo.Revoke.Live.{AllCopied, query_dump-fits}

hits-records :
    (a b : List Candidate) (entries : List (Conntrack × Bool))
    → records a ≡ records b
    → hits a entries ≡ hits b entries
unfolding hits
hits-records a b [] same = refl
hits-records a b ((ct, copied) ∷ rest) same =
    ap₂ (λ p r. if p then ct ∷ r else r) (any_matches-records ct a b same)
      (hits-records a b rest same)

-- A table that a scan for the records reads whole, within its limits, and without hardware offload.
abbrev pub IsReadable : List Candidate → Dump → Type 0
IsReadable items dump =
    (dump.opens ≡ true)
    × (dump.registers ≡ true)
    × (dump.succeeds ≡ true)
    × AllCopied dump.entries
    × (length dump.entries ≤ max_conntrack_snapshot)
    × (length (hits items dump.entries) ≤ max_candidates)
    × (count_if hardware_offloaded dump.entries ≡ 0)

-- The scan of such a table.
abbrev pub Reads : (items : List Candidate) → Pass → Candidates → Scan → (ok : Bool) → Type 0
Reads items pass s scan ok =
    (revoke_scan pass s ≡ some (scan, ok))
    × IsGood scan ok
    × (scan.hardware ≡ 0)
    × ((list_of scan).items ≡ hits items pass.dump.entries)
    × IsTracked (candidates_of scan s)
    × (records (candidates_of scan s).items ≡ records items)

pub revoke_scan-Reads :
    (pass : Pass) (s : Candidates) (items : List Candidate)
    → IsTracked s
    → records s.items ≡ records items
    → IsReadable items pass.dump
    → (scan : Scan) × (ok : Bool) × Reads items pass s scan ok
unfolding conntrack_scan
revoke_scan-Reads pass s items tracked same (opens, registers, succeeds, copied, few, room, soft) =
    let cleared = record s { items = clear_present s.items } in
    let begun = new_scan (some cleared) (some (new_list max_candidates)) false in
    let kept : records cleared.items ≡ records items = records-clear_present s.items ∙ same in
    let entries = pass.dump.entries in
    let matches : hits cleared.items entries ≡ hits items entries =
      hits-records cleared.items items entries kept in
    let tracked' = clear_present-IsTracked s tracked in
    let (scan, ok, e, found) =
      conntrack_scan-IsReference pass.dump cleared (some (new_list max_candidates)) tracked' refl in
    let (after, read, whole, free) =
      query_dump-fits entries begun cleared (new_list max_candidates)
        (refl, refl, refl, omega arith, omega arith) tracked' refl refl refl copied
        (omega (arith, few)) (omega (arith, ap length matches, room)) in
    let e' : conntrack_scan pass.dump begun ≡ some (after, true) =
      simp (opens, registers, read, succeeds, conntrack_scan) in
    let is : ◌≡◌ {A = Scan × Bool} (scan, ok) (after, true) =
      Option.some-injective (scan, ok) (after, true) (sym e ∙ e') in
    let fine : ok ≡ true = ap (λ x. x.1) is in
    let whole' : scan.snapshot_overflow ≡ false = ap (λ x. x.0.snapshot_overflow) is ∙ whole in
    let free' : (list_of scan).overflow ≡ false =
      sym (is_full-list_in scan.matches) ∙ ap (λ x. is_full x.0.matches) is ∙ free in
    let reference = found fine whole' (inl (is_full-list_in scan.matches ∙ free')) in
    let (_, next, kept') = reference-Finds pass.dump scan s cleared items kept reference in
    let (own, _, listed, hard, _) = reference in
    let items' : (list_of scan).items ≡ hits items entries =
      ap (λ m. (list_in m).items) listed ∙ matches in
    (scan, ok, (e, (fine, whole', free'), omega (arith, hard, soft), items', next, kept'))

-- Answers that are no refusals.
abbrev pub AllGranted : (ℕ → Conntrack → Answer) → Type 0
AllGranted answer = (i : ℕ) (ct : Conntrack) → (answer i ct ≡ destroyed) ⊎ (answer i ct ≡ absent)

destroy-granted :
    (answer : ℕ → Conntrack → Answer) (i : ℕ) (items : List Conntrack) (report : Report)
    → AllGranted answer
    → (destroy answer i items report).1 ≡ true
unfolding destroy
destroy-granted answer i [] report granted = refl
destroy-granted answer i (ct ∷ rest) report granted = elim (granted i ct) [
  | inl done ↦ rw (done, destroy) (destroy-granted answer (suc i) rest _ granted)
  | inr gone ↦ rw (gone, destroy) (destroy-granted answer (suc i) rest _ granted)
]

pub settle-complete :
    (pass : Pass) (start deadline_ms : ℕ) (scan : Scan) (ok : Bool) (report : Report)
    → IsGood scan ok
    → scan.hardware ≡ 0
    → length (list_of scan).items ≡ 0
    → ((settle pass start deadline_ms false scan ok report).0.result ≡ complete)
      × ((settle pass start deadline_ms false scan ok report).2 ≡ false)
unfolding settle
settle-complete pass start deadline_ms scan ok report (fine, whole, free) soft clean =
    let good : (not ok || (scan.snapshot_overflow || (list_of scan).overflow)) ≡ false =
      ground (arith, fine, whole, free) in
    let soft' : (scan.hardware == 0) ≡ true = ground arith in
    let clean' : (length (list_of scan).items == 0) ≡ true = ground arith in
    rw (good, soft', clean', settle) (refl, refl)

pub settle-again :
    (pass : Pass) (start deadline_ms : ℕ) (scan : Scan) (ok : Bool) (report : Report)
    → IsGood scan ok
    → scan.hardware ≡ 0
    → pass.opens ≡ true
    → AllGranted pass.answer
    → sub64 pass.now start < deadline_ms
    → (length (list_of scan).items == 0) ≡ false
    → (settle pass start deadline_ms false scan ok report).2 ≡ true
unfolding settle delete_conntracks
settle-again pass start deadline_ms scan ok report (fine, whole, free) soft opens granted timely
      left =
    let good : (not ok || (scan.snapshot_overflow || (list_of scan).overflow)) ≡ false =
      ground (arith, fine, whole, free) in
    let soft' : (scan.hardware == 0) ≡ true = ground arith in
    let on : ltb (sub64 pass.now start) deadline_ms ≡ true = ground arith in
    let all =
      destroy-granted pass.answer 0 (list_of scan).items
        (record (take_counts scan report) { remaining = length (list_of scan).items }) granted in
    rw (good, soft', left, settle, opens, delete_conntracks, all) on
