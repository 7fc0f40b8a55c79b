-- ===== src/Sfo/Command/Main.antt =====
-- sfo/client-access-sfoctl.c: every command ends, with an exit code of its own.
use client_access.Prelude.{
  ℕ, suc, ◌≤◌, ◌≡◌, ◌∙◌, refl, Bool, true, false, Option, none, some, List, [], ◌∷◌, ltb,
  Bool-cases, ◌⊎◌, inl, inr, arith,
}
use client_access.Prelude.Word.{u32}
use client_access.Sfo.Tuple.{Conntrack}
use client_access.Sfo.Candidates.{Flows}
use client_access.Sfo.Scan.{
  cb_continue, Scan, Dump, new_scan, conntrack_scan, query_dump, scan_cb, match_entry, count_entry,
  max_conntrack_snapshot,
}
use client_access.Sfo.Scan.Query.{counted, scan_cb-over, query_dump-stop, query_dump-continue}
use client_access.Sfo.Report.{Report, is_complete, exit_code}
use client_access.Sfo.Revoke.Outcome.{run_revoke-ends}
use client_access.Sfo.Gc.Idle.{run_gc-asked}
use client_access.Sfo.Fallback.{run_baseline}
use client_access.Sfo.Fallback.Baseline.{run_baseline-Offloaded}
use client_access.Sfo.Command.{
  Run, run_status_of, run_baseline_of, run_gc_of, run_revoke_of, invalid, World, run_status,
  count_status, scan_status, exit_of, perform, main, dispatch, Action, Argument,
}

scan_cb-plain :
    (copied : Bool) (ct : Conntrack) (scan : Scan)
    → scan.candidates ≡ none
    → scan.offloaded_only ≡ false
    → ltb max_conntrack_snapshot (u32 (suc scan.entries)) ≡ false
    → scan_cb copied ct scan ≡ some (counted ct scan, cb_continue)
unfolding scan_cb count_entry match_entry
scan_cb-plain copied ct scan absent mode under = simp (under, mode, absent, scan_cb, match_entry)

-- A scan that looks for nothing ends.
query_dump-ends :
    (entries : List (Conntrack × Bool)) (scan : Scan)
    → scan.candidates ≡ none
    → scan.offloaded_only ≡ false
    → (after : Scan) × (query_dump entries scan ≡ some after)
unfolding query_dump count_entry
query_dump-ends [] scan absent mode = (scan, refl)
query_dump-ends ((ct, copied) ∷ rest) scan absent mode =
    elim (Bool-cases (ltb max_conntrack_snapshot (u32 (suc scan.entries)))) [
      | inl over ↦ (_, query_dump-stop copied ct rest scan _ (scan_cb-over copied ct scan over))
      | inr under ↦
          let (after, e) = query_dump-ends rest (counted ct scan) absent mode in
          (
            after,
            query_dump-continue copied ct rest scan (counted ct scan)
                  (scan_cb-plain copied ct scan absent mode under)
                ∙ e,
          )
    ]

plain_scan-ends :
    (dump : Dump)
    → (after : Scan) × (ok : Bool) × (conntrack_scan dump (new_scan none none false)
        ≡ some (after, ok))
unfolding conntrack_scan
plain_scan-ends dump =
    let scan = new_scan none none false in
    elim (Bool-cases dump.opens) [
      | inr closed ↦ (scan, false, simp (closed, conntrack_scan))
      | inl opened ↦ elim (Bool-cases dump.registers) [
        | inr refused ↦ (scan, false, simp (opened, refused, conntrack_scan))
        | inl ready ↦
            let (after, e) = query_dump-ends dump.entries scan refl refl in
            (after, dump.succeeds, simp (opened, ready, e, conntrack_scan))
      ]
    ]

run_status-ends :
    (memory : Bool) (flows : Flows) (dump : Dump)
    → (report : Option Report) × (run_status memory flows dump ≡ some report)
unfolding run_status
run_status-ends false flows dump = (none, refl)
run_status-ends true flows dump =
    let (after, ok, e) = plain_scan-ends dump in
    (some (scan_status (count_status flows) after ok), simp (e, run_status))

exit_code-le : (report : Report) → exit_code report ≤ 1
exit_code-le report = elim (Bool-cases (is_complete report.result)) [
  | inl done ↦ rw done (omega arith)
  | inr open_end ↦ rw open_end (omega arith)
]

exit_of-le : (report : Option Report) → exit_of report ≤ 1
exit_of-le none = omega arith
exit_of-le (some report) = exit_code-le report

perform-exit :
    (world : World) (run : Run)
    → (perform world run ≡ some 2) × (run ≡ invalid)
      ⊎ (code : ℕ) × (perform world run ≡ some code) × (code ≤ 1)
unfolding perform run_baseline
perform-exit world run_status_of =
    let (report, e) = run_status-ends world.memory world.flows world.dump in
    inr (exit_of report, simp (e, perform), exit_of-le report)
perform-exit world (run_baseline_of deadline) = elim (Bool-cases world.fallback.memory) [
  | inr full ↦
      let e : run_baseline deadline world.fallback ≡ some (none, []) = simp (full, run_baseline) in
      inr (1, simp (e, perform), omega arith)
  | inl room ↦
      let (report, asked, e, _, _, _) = run_baseline-Offloaded deadline world.fallback room in
      inr (exit_code report, simp (e, perform), exit_code-le report)
]
perform-exit world (run_gc_of idle) =
    let (report, asked, e, _) = run_gc-asked idle world.collection in
    inr (exit_code report, simp (e, perform), exit_code-le report)
perform-exit world (run_revoke_of subject class deadline) =
    let (report, asked, e, _, _) = run_revoke-ends subject class deadline world.revocation in
    inr (exit_code report, simp (e, perform), exit_code-le report)
perform-exit world invalid = inl (refl, refl)

-- A run of the program ends, whatever its arguments and the tables are: with the exit code 2 where
-- the arguments are refused, and otherwise with 0 or 1.
pub main-exit :
    (world : World) (action : Action) (rest : List Argument)
    → (main world action rest ≡ some 2) × (dispatch action rest ≡ invalid)
      ⊎ (code : ℕ) × (main world action rest ≡ some code) × (code ≤ 1)
unfolding main
main-exit world action rest = perform-exit world (dispatch action rest)
