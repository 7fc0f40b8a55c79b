-- ===== src/Sfo/Revoke/Outcome.antt =====
-- sfo/client-access-sfoctl.c: what `run_revoke` promises, in terms of the flow map and of the tables
-- that its passes read.
use client_access.Prelude.{
  ℕ, ◌*◌, ◌≤◌, ◌<◌, ◌≡◌, ◌∙◌, refl, sym, true, false, not, ◌&&◌, ◌||◌, Option, some, List, [], ◌==◌,
  ltb, length, In, Bool-cases, Option-cases, inl, inr, arith,
}
use client_access.Prelude.Word.{sub64}
use mathlib.Core.Option
use mathlib.Core.Path.{subst}
use client_access.Sfo.Tuple.{Conntrack, hardware_offloaded}
use client_access.Sfo.Candidates.{Selection, collect_candidates, max_candidates}
use client_access.Sfo.Candidates.Chain.{any_matches}
use client_access.Sfo.Candidates.Collect.{selected, collect_candidates-IsCollected}
use client_access.Sfo.Report.{
  Report, complete, failed, is_complete, new_report, fail, conclude, max_verification_passes,
}
use client_access.Sfo.Revoke.{Revocation, wanted, run_revoke}
use client_access.Sfo.Revoke.Requests.{length-run_revoke}
use client_access.Sfo.Revoke.OfFlow.{IsOfFlow, selected-IsOfFlow, IsOfFlow-selected}
use client_access.Sfo.Scan.Read.{IsRead}
use client_access.Sfo.Revoke.Passes.{of_records, dumped, IsClean, revoke_passes-Revokes}

-- What a run of the command leaves: the result, and the entries it asked to be destroyed.
abbrev pub Outcome : Selection → Revocation → Report → List Conntrack → Type 0
Outcome asked_for env report asked =
    (report.verification_passes ≤ max_verification_passes)
    × (report.result ≡ complete
        → (j : ℕ) × (j < max_verification_passes)
          × IsRead (env.pass j).dump
          × IsClean (of_records (selected asked_for env.flows.entries)) (env.pass j).dump)
    × ((ct : Conntrack)
        → In ct asked
        → (any_matches ct (selected asked_for env.flows.entries) ≡ true)
          × (j : ℕ) × (j < max_verification_passes)
          × In ct (dumped (env.pass j).dump))

-- The end of the command only turns success into failure.
pub conclude-kept :
    (start deadline_ms finish printed : ℕ) (report : Report)
    → ((conclude start deadline_ms finish printed report).verification_passes
        ≡ report.verification_passes)
      × ((conclude start deadline_ms finish printed report).result ≡ complete
          → (report.result ≡ complete) × (sub64 finish start ≤ deadline_ms))
unfolding conclude
conclude-kept start deadline_ms finish printed report =
    elim (Bool-cases (
      ltb deadline_ms (sub64 finish start)
      || (not (is_complete report.result) && not (report.remaining == 0)))) [
        | inl late ↦ rw (late, conclude) (refl, λ done. absurd (ground arith))
        | inr timely ↦ rw (timely, conclude) (refl, λ done. (done, ground arith))
      ]

run_revoke-Outcome :
    (subject_id : ℕ) (class_id : Option ℕ) (deadline_ms : ℕ) (env : Revocation)
    → (report : Report) × (asked : List Conntrack) × (run_revoke subject_id class_id deadline_ms env
        ≡ some (report, asked))
      × Outcome (wanted subject_id class_id) env report asked
      × (report.result ≡ complete → sub64 env.finish env.start ≤ deadline_ms)
unfolding run_revoke
run_revoke-Outcome subject_id class_id deadline_ms env =
    let asked_for = wanted subject_id class_id in
    let unable = record (fail (new_report failed)) { latency_ms = sub64 env.printed env.start } in
    let nothing : Outcome asked_for env unable [] =
      (omega arith, λ done. absurd (ground arith), λ ct at. absurd at) in
    elim (Bool-cases env.memory) [
      | inr full ↦ (unable, [], rw full refl, nothing, λ done. absurd (ground arith))
      | inl room ↦ elim (Option-cases (collect_candidates env.flows asked_for max_candidates)) [
        | inl over ↦
            (unable, [], simp (room, over, run_revoke), nothing, λ done. absurd (ground arith))
        | inr (s, collected) ↦
            let (same, few, tracked) =
              collect_candidates-IsCollected env.flows asked_for max_candidates s (omega arith)
                collected in
            let (report, asked, e, (passes, done, asks)) =
              revoke_passes-Revokes max_verification_passes env.pass env.start deadline_ms 0 s
                (selected asked_for env.flows.entries)
                (record (new_report failed) { candidates = length s.items }) [] tracked same
                (omega arith) in
            let (kept, timely) =
              conclude-kept env.start deadline_ms env.finish env.printed report in
            (
              conclude env.start deadline_ms env.finish env.printed report,
              asked,
              simp (room, collected, e, run_revoke),
              (
                omega (arith, kept, passes),
                λ end. elim (done (timely end).0) [
                  | inl before ↦ absurd (ground arith)
                  | inr clean ↦ clean
                ],
                λ ct at. elim (asks ct at) [ inl before ↦ absurd before | inr found ↦ found ],
              ),
              λ end. (timely end).1,
            )
      ]
    ]

-- A revocation ends, whatever the flow map, the tables and the answers are, and without a read
-- outside of the array of candidates: after at most three passes, and after at most 3 * 4096
-- requests.
pub run_revoke-ends :
    (subject_id : ℕ) (class_id : Option ℕ) (deadline_ms : ℕ) (env : Revocation)
    → (report : Report) × (asked : List Conntrack) × (run_revoke subject_id class_id deadline_ms env
        ≡ some (report, asked))
      × (report.verification_passes ≤ 3)
      × (length asked ≤ 3 * 4096)
run_revoke-ends subject_id class_id deadline_ms env =
    let (report, asked, e, (passes, _, _), _) =
      run_revoke-Outcome subject_id class_id deadline_ms env in
    (report, asked, e, passes, length-run_revoke subject_id class_id deadline_ms env report asked e)

-- The outcome is the one that the run returns.
run_revoke-is :
    (subject_id : ℕ) (class_id : Option ℕ) (deadline_ms : ℕ) (env : Revocation)
    → (report : Report) (asked : List Conntrack)
    → run_revoke subject_id class_id deadline_ms env ≡ some (report, asked)
    → Outcome (wanted subject_id class_id) env report asked
      × (report.result ≡ complete → sub64 env.finish env.start ≤ deadline_ms)
run_revoke-is subject_id class_id deadline_ms env report asked h =
    let (r, a, e, outcome, timely) = run_revoke-Outcome subject_id class_id deadline_ms env in
    subst
      (λ x.
        Outcome (wanted subject_id class_id) env x.0 x.1
        × (x.0.result ≡ complete → sub64 env.finish env.start ≤ deadline_ms))
      (Option.some-injective (r, a) (report, asked) (sym e ∙ h)) (outcome, timely)

-- A revocation that reports COMPLETE has, in one of its passes, read a table to its end, without a
-- call that failed, in which no entry has the original tuple of a TCP or UDP flow record of the
-- subject and the class, and no entry is offloaded to hardware; and it has kept its deadline.
pub run_revoke-complete :
    (subject_id : ℕ) (class_id : Option ℕ) (deadline_ms : ℕ) (env : Revocation)
    → (report : Report) (asked : List Conntrack)
    → run_revoke subject_id class_id deadline_ms env ≡ some (report, asked)
    → report.result ≡ complete
    → ((j : ℕ) × (j < max_verification_passes)
        × IsRead (env.pass j).dump
        × ((ct : Conntrack)
            → In ct (dumped (env.pass j).dump)
            → ¬ IsOfFlow env.flows.entries subject_id class_id ct
              × (hardware_offloaded ct ≡ false)))
      × (sub64 env.finish env.start ≤ deadline_ms)
run_revoke-complete subject_id class_id deadline_ms env report asked h end =
    let ((_, done, _), timely) = run_revoke-is subject_id class_id deadline_ms env report asked h in
    let (j, below, read, clean) = done end in
    (
      (
        j,
        below,
        read,
        λ ct at.
            let (out, soft) = clean ct at in
            (
              λ of_flow.
                  let hit = IsOfFlow-selected subject_id class_id env.flows.entries ct of_flow in
                  absurd (ground arith),
              soft,
            ),
      ),
      timely end,
    )

-- A revocation asks only for entries that one of its passes has read, and that have the original
-- tuple of a TCP or UDP flow record of the subject and the class.
pub run_revoke-asked :
    (subject_id : ℕ) (class_id : Option ℕ) (deadline_ms : ℕ) (env : Revocation)
    → (report : Report) (asked : List Conntrack) (ct : Conntrack)
    → run_revoke subject_id class_id deadline_ms env ≡ some (report, asked)
    → In ct asked
    → IsOfFlow env.flows.entries subject_id class_id ct
      × (j : ℕ) × (j < max_verification_passes)
      × In ct (dumped (env.pass j).dump)
run_revoke-asked subject_id class_id deadline_ms env report asked ct h at =
    let ((_, _, asks), _) = run_revoke-is subject_id class_id deadline_ms env report asked h in
    let (match, j, below, from) = asks ct at in
    (selected-IsOfFlow subject_id class_id env.flows.entries ct match, j, below, from)
