-- ===== src/Sfo/Revoke.antt =====
-- sfo/client-access-sfoctl.c: `run_revoke`, which destroys the conntrack entries of the flows of a
-- subject, and looks again, until a scan finds none.
pub mod OfFlow
pub mod Passes
pub mod Requests
pub mod Outcome
pub mod Live
pub mod Completes
pub mod Liveness
use client_access.Prelude.{
  ℕ, zero, suc, ◌+◌, Bool, true, false, not, Option, none, some, List, [], ◌++◌, if◌then◌else◌,
  length,
}
use client_access.Prelude.Word.{u32, sub64}
use client_access.Sfo.Tuple.{Conntrack}
use client_access.Sfo.Candidates.{
  Candidates, Selection, Flows, collect_candidates, clear_present, max_candidates,
}
use client_access.Sfo.Scan.{Scan, conntrack_scan, new_scan, new_list}
use client_access.Sfo.Report.{
  Report, Pass, new_report, fail, settle, conclude, failed, max_verification_passes,
}

-- The set after a scan, which works on it in place.
abbrev pub set_in : Candidates → Option Candidates → Candidates
set_in s none = s
set_in s (some marked) = marked

abbrev pub candidates_of : Scan → Candidates → Candidates
candidates_of scan s = set_in s scan.candidates

-- The scan of a pass, with the marks cleared before.
abbrev pub revoke_scan : Pass → Candidates → Option (Scan × Bool)
revoke_scan pass s = conntrack_scan pass.dump (
    new_scan (some (record s { items = clear_present s.items })) (some (new_list max_candidates))
      false)

-- The passes from number `i` on, of which `left` are allowed. `none` is an access outside of the
-- array of candidates.
unfoldable pub revoke_passes :
    (left : ℕ)
    → (pass : ℕ → Pass) → (start deadline_ms i : ℕ) → Candidates
    → Report
    → (asked : List Conntrack) → Option (Report × List Conntrack)
revoke_passes zero pass start deadline_ms i s report asked = some (report, asked)
revoke_passes (suc left) pass start deadline_ms i s report asked =
    let begun = record report { verification_passes = u32 (suc report.verification_passes) } in
    elim (revoke_scan (pass i) s) [
      | none ↦ none
      | some (scan, ok) ↦
          let (after, more, again) = settle (pass i) start deadline_ms false scan ok begun in
          elim again [
            | false ↦ some (after, asked ++ more)
            | true ↦
                revoke_passes left pass start deadline_ms (suc i) (candidates_of scan s) after
                  (asked ++ more)
          ]
    ]

-- What the command meets: whether its arrays can be had, the flow map, the passes, and the clock at
-- the start, after the passes, and before the result is printed.
pub record Revocation : Type 0 where
  pub memory : Bool
  pub flows : Flows
  pub pass : ℕ → Pass
  pub start : ℕ
  pub finish : ℕ
  pub printed : ℕ

abbrev pub wanted : (subject_id : ℕ) → (class_id : Option ℕ) → Selection
wanted subject_id class_id = record { subject = some subject_id; class = class_id }

-- The result that is printed, and the entries that were asked to be destroyed.
unfoldable pub run_revoke :
    (subject_id : ℕ)
    → (class_id : Option ℕ) → (deadline_ms : ℕ) → Revocation
    → Option (Report × List Conntrack)
run_revoke subject_id class_id deadline_ms env =
    let unable = record (fail (new_report failed)) { latency_ms = sub64 env.printed env.start } in
    if not env.memory
    then some (unable, [])
    else elim (collect_candidates env.flows (wanted subject_id class_id) max_candidates) [
      | none ↦ some (unable, [])
      | some s ↦
          elim (revoke_passes max_verification_passes env.pass env.start deadline_ms 0 s
            (record (new_report failed) { candidates = length s.items }) []) [
              | none ↦ none
              | some (report, asked) ↦
                  some (conclude env.start deadline_ms env.finish env.printed report, asked)
            ]
    ]
