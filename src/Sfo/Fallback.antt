-- ===== src/Sfo/Fallback.antt =====
-- sfo/client-access-sfoctl.c: `run_baseline`, which destroys every entry that is offloaded in
-- software, whatever its flow.
pub mod Offloaded
pub mod Baseline
use client_access.Prelude.{
  ℕ, zero, suc, ◌+◌, Bool, true, false, not, ◌&&◌, Option, none, some, List, [], ◌++◌,
  if◌then◌else◌,
}
use client_access.Prelude.Word.{u32}
use client_access.Sfo.Tuple.{Conntrack}
use client_access.Sfo.Scan.{Scan, conntrack_scan, new_scan, new_list}
use client_access.Sfo.Report.{
  Report, Pass, new_report, settle, conclude, failed, max_verification_passes,
  max_fallback_evictions,
}

abbrev pub baseline_scan : Pass → Option (Scan × Bool)
baseline_scan pass =
    conntrack_scan pass.dump (new_scan none (some (new_list max_fallback_evictions)) true)

-- The passes from number `i` on, of which `left` are allowed.
unfoldable pub baseline_passes :
    (left : ℕ)
    → (pass : ℕ → Pass) → (start deadline_ms i : ℕ) → Report
    → (asked : List Conntrack) → Option (Report × List Conntrack)
baseline_passes zero pass start deadline_ms i report asked = some (report, asked)
baseline_passes (suc left) pass start deadline_ms i report asked =
    let begun = record report { verification_passes = u32 (suc report.verification_passes) } in
    elim (baseline_scan (pass i)) [
      | none ↦ none
      | some (scan, ok) ↦
          let (after, more, again) = settle (pass i) start deadline_ms true scan ok begun in
          elim again [
            | false ↦ some (after, asked ++ more)
            | true ↦ baseline_passes left pass start deadline_ms (suc i) after (asked ++ more)
          ]
    ]

-- What the command meets: whether its array can be had, the passes, and the clock.
pub record Fallback : Type 0 where
  pub memory : Bool
  pub pass : ℕ → Pass
  pub start : ℕ
  pub finish : ℕ

-- The result that is printed, if one is, and the entries that were asked to be destroyed. The inner
-- `none` is the exit without a result.
unfoldable pub run_baseline : (deadline_ms : ℕ) → Fallback → Option (Option Report × List Conntrack)
run_baseline deadline_ms env =
    if not env.memory
    then some (none, [])
    else elim (baseline_passes max_verification_passes env.pass env.start deadline_ms 0
        (record (new_report failed) { fallback_used = true }) []) [
          | none ↦ none
          | some (report, asked) ↦
              some (some (conclude env.start deadline_ms env.finish env.finish report), asked)
        ]
