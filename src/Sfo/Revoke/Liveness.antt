-- ===== src/Sfo/Revoke/Liveness.antt =====
-- sfo/client-access-sfoctl.c: a revocation whose entries do not come back reports COMPLETE.
use client_access.Prelude.{
  ℕ, suc, ◌≤◌, ◌<◌, ◌≡◌, ◌∙◌, refl, ap, true, false, not, ◌&&◌, ◌||◌, Option, some, List, [], ◌++◌,
  ◌==◌, ltb, length, Bool-cases, inl, inr, arith,
}
use client_access.Prelude.Word.{u32, sub64}
use client_access.Sfo.Tuple.{Conntrack}
use client_access.Sfo.Candidates.{Candidate, Candidates, max_candidates, collect_candidates}
use client_access.Sfo.Candidates.Collect.{records, selected, collect_candidates-IsCollected}
use client_access.Sfo.Scan.Marking.{IsTracked}
use client_access.Sfo.Scan.Reference.{hits}
use client_access.Sfo.Report.{
  Report, Pass, complete, failed, is_complete, new_report, settle, list_of, conclude,
}
use client_access.Sfo.Revoke.{Revocation, wanted, candidates_of, revoke_passes, run_revoke}
use client_access.Sfo.Revoke.Completes.{
  IsReadable, AllGranted, revoke_scan-Reads, settle-complete, settle-again,
}

-- A pass that finds no entry is the last one, and a success.
passes-last :
    (left : ℕ) (pass : ℕ → Pass) (start deadline_ms i : ℕ) (s : Candidates)
    → (items : List Candidate) (report : Report) (asked : List Conntrack) → IsTracked s
    → records s.items ≡ records items
    → IsReadable items (pass i).dump
    → hits items (pass i).dump.entries ≡ []
    → (report' : Report) × (asked' : List Conntrack) × (revoke_passes
          (suc left)
          pass
          start
          deadline_ms
          i
          s
          report
          asked
        ≡ some (report', asked'))
      × (report'.result ≡ complete)
unfolding revoke_passes
passes-last left pass start deadline_ms i s items report asked tracked same readable gone =
    let begun = record report { verification_passes = u32 (suc report.verification_passes) } in
    let (scan, ok, (e, good, soft, listed, next, kept)) =
      revoke_scan-Reads (pass i) s items tracked same readable in
    let empty : length (list_of scan).items ≡ 0 = ap length (listed ∙ gone) in
    let (end, stop) = settle-complete (pass i) start deadline_ms scan ok begun good soft empty in
    let out = settle (pass i) start deadline_ms false scan ok begun in
    (out.0, asked ++ out.1, rw (e, stop, revoke_passes) refl, end)

passes-two :
    (left : ℕ) (pass : ℕ → Pass) (start deadline_ms i : ℕ) (s : Candidates)
    → (items : List Candidate) (report : Report) (asked : List Conntrack) → IsTracked s
    → records s.items ≡ records items
    → IsReadable items (pass i).dump
    → (pass i).opens ≡ true
    → AllGranted (pass i).answer
    → sub64 (pass i).now start < deadline_ms
    → IsReadable items (pass (suc i)).dump
    → hits items (pass (suc i)).dump.entries ≡ []
    → (report' : Report) × (asked' : List Conntrack) × (revoke_passes
          (suc (suc left))
          pass
          start
          deadline_ms
          i
          s
          report
          asked
        ≡ some (report', asked'))
      × (report'.result ≡ complete)
unfolding revoke_passes
passes-two left pass start deadline_ms i s items report asked tracked same readable opens granted
      timely readable' gone =
    let begun = record report { verification_passes = u32 (suc report.verification_passes) } in
    let (scan, ok, (e, good, soft, listed, next, kept)) =
      revoke_scan-Reads (pass i) s items tracked same readable in
    let out = settle (pass i) start deadline_ms false scan ok begun in
    elim (Bool-cases (length (list_of scan).items == 0)) [
      | inl none_left ↦
          let (end, stop) =
            settle-complete (pass i) start deadline_ms scan ok begun good soft (ground arith) in
          (out.0, asked ++ out.1, rw (e, stop, revoke_passes) refl, end)
      | inr some_left ↦
          let again =
            settle-again (pass i) start deadline_ms scan ok begun good soft opens granted timely
              some_left in
          let (report', asked', rest, end) =
            passes-last left pass start deadline_ms (suc i) (candidates_of scan s) items out.0
              (asked ++ out.1) next kept readable' gone in
          (report', asked', rw (e, again, revoke_passes) rest, end)
    ]

conclude-complete :
    (start deadline_ms finish printed : ℕ) (report : Report)
    → report.result ≡ complete
    → sub64 finish start ≤ deadline_ms
    → (conclude start deadline_ms finish printed report).result ≡ complete
unfolding conclude
conclude-complete start deadline_ms finish printed report end timely =
    let done : is_complete report.result ≡ true = rw end refl in
    let fine : (ltb deadline_ms (sub64 finish start)
          || (not (is_complete report.result) && not (report.remaining == 0)))
        ≡ false =
      ground (arith, done) in
    rw (fine, conclude) end

-- A revocation reports COMPLETE where it can collect its flows; the tables of its first two passes
-- can be read whole, within the limits and without hardware offload; the first pass may ask, is
-- refused nothing and ends before the deadline; no entry of the flows is in the second table; and
-- the passes end within the deadline.
pub run_revoke-completes :
    (subject_id : ℕ) (class_id : Option ℕ) (deadline_ms : ℕ) (env : Revocation) (s : Candidates)
    → env.memory ≡ true
    → collect_candidates env.flows (wanted subject_id class_id) max_candidates ≡ some s
    → IsReadable (selected (wanted subject_id class_id) env.flows.entries) (env.pass 0).dump
    → (env.pass 0).opens ≡ true
    → AllGranted (env.pass 0).answer
    → sub64 (env.pass 0).now env.start < deadline_ms
    → IsReadable (selected (wanted subject_id class_id) env.flows.entries) (env.pass 1).dump
    → hits (selected (wanted subject_id class_id) env.flows.entries) (env.pass 1).dump.entries ≡ []
    → sub64 env.finish env.start ≤ deadline_ms
    → (report : Report) × (asked : List Conntrack) × (run_revoke subject_id class_id deadline_ms env
        ≡ some (report, asked))
      × (report.result ≡ complete)
unfolding run_revoke
run_revoke-completes subject_id class_id deadline_ms env s room collected readable opens granted
      timely readable' gone fast =
    let (same, few, tracked) =
      collect_candidates-IsCollected env.flows (wanted subject_id class_id) max_candidates s
        (omega arith) collected in
    let (report, asked, e, end) =
      passes-two 1 env.pass env.start deadline_ms 0 s
        (selected (wanted subject_id class_id) env.flows.entries)
        (record (new_report failed) { candidates = length s.items }) [] tracked same readable opens
        granted timely readable' gone in
    (
      conclude env.start deadline_ms env.finish env.printed report,
      asked,
      simp (room, collected, e, run_revoke),
      conclude-complete env.start deadline_ms env.finish env.printed report end fast,
    )
