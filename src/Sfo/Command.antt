-- ===== src/Sfo/Command.antt =====
-- sfo/client-access-sfoctl.c: `run_status` and `main`. An argument is text; `strtoul` reads it, and
-- gives the number, whether all of it was read, and whether it was in range, or stands for them.
pub mod Exit
pub mod Main
use client_access.Prelude.{
  ℕ, suc, ◌+◌, Bool, true, false, not, ◌&&◌, ◌||◌, Option, none, some, List, [], ◌∷◌, ◌==◌, ltb,
  if◌then◌else◌, length, same_bytes,
}
use client_access.Prelude.Word.{u16, u32}
use client_access.Abi.{FlowKey, FlowState}
use client_access.Sfo.Tuple.{Conntrack}
use client_access.Sfo.Candidates.{Flows}
use client_access.Sfo.Scan.{Scan, Dump, new_scan, conntrack_scan}
use client_access.Sfo.Report.{
  Report, Result, Health, new_report, fail, take_counts, complete, failed, degraded, unknown,
  exit_code,
}
use client_access.Sfo.Revoke.{Revocation, run_revoke}
use client_access.Sfo.Gc.{Collection, run_gc}
use client_access.Sfo.Fallback.{Fallback, run_baseline}

-- `strtoul(text, &end, 10)`: the value, `!errno`, and `!*end`.
pub record Parsed : Type 0 where
  pub value : ℕ
  pub in_range : Bool
  pub at_end : Bool

unfoldable pub parse_u32 : Parsed → (minimum maximum : ℕ) → Option ℕ
parse_u32 parsed minimum maximum =
    if not parsed.in_range
      || (not parsed.at_end || (ltb parsed.value minimum || ltb maximum parsed.value))
    then none
    else some (u32 parsed.value)

-- The flow records that have a value; none if the map is empty.
unfoldable pub count_flows : List (FlowKey × Option FlowState) → ℕ
count_flows [] = 0
count_flows ((key, none) ∷ rest) = count_flows rest
count_flows ((key, some state) ∷ rest) = suc (count_flows rest)

-- The result before the scan.
unfoldable pub count_status : Flows → Report
count_status flows =
    let count = if flows.opens then count_flows flows.entries else 0 in
    let tracked = record (new_report complete) { candidates = count; tracked_flows = count } in
    if flows.opens
    then tracked
    else record tracked { result = failed; correlation_health = unknown }

-- The result after it.
unfoldable pub scan_status : Report → Scan → (ok : Bool) → Report
scan_status report scan ok =
    let seen = take_counts scan (
      if not ok || scan.snapshot_overflow
      then record (fail report) { result = failed }
      else report) in
    if scan.hardware == 0
    then seen
    else record seen { result = failed; correlation_health = degraded }

-- The result of `run_status`; the inner `none` is the exit without a result.
unfoldable pub run_status : (memory : Bool) → Flows → Dump → Option (Option Report)
run_status memory flows dump =
    if not memory then some none else elim (conntrack_scan dump (new_scan none none false)) [
      | none ↦ none
      | some (scan, ok) ↦ some (some (scan_status (count_status flows) scan ok))
    ]

-- The arguments after the program's name: the first as text, the others as `strtoul` reads them,
-- with whether they are "-".
pub record Argument : Type 0 where
  pub is_dash : Bool
  pub parsed : Parsed

pub data Action : Type 0 where
  status : Action
  baseline : Action
  gc : Action
  revoke : Action
  other : Action

-- What `main` runs.
pub data Run : Type 0 where
  run_status_of : Run
  run_baseline_of : (deadline_ms : ℕ) → Run
  run_gc_of : (idle_seconds : ℕ) → Run
  run_revoke_of : (subject_id : ℕ) → (class_id : Option ℕ) → (deadline_ms : ℕ) → Run
  invalid : Run

abbrev pub default_deadline_ms : ℕ
default_deadline_ms = 2000

abbrev pub max_deadline_ms : ℕ
max_deadline_ms = 10000

-- A deadline, if it is given.
abbrev pub deadline_of : List Argument → Option ℕ
deadline_of [] = some default_deadline_ms
deadline_of (a ∷ []) = parse_u32 a.parsed 1 max_deadline_ms
deadline_of (a ∷ b ∷ rest) = none

-- The class, where the outer `none` is a refusal.
abbrev pub class_of : Argument → Option (Option ℕ)
class_of a =
    if a.is_dash
    then some none
    else elim (parse_u32 a.parsed 0 65535) [ none ↦ none | some class ↦ some (some (u16 class)) ]

unfoldable pub parse_baseline : List Argument → Run
parse_baseline rest = elim (deadline_of rest) [
  | none ↦ invalid
  | some deadline ↦ run_baseline_of deadline
]

unfoldable pub parse_gc : List Argument → Run
parse_gc [] = invalid
parse_gc (a ∷ []) = elim (parse_u32 a.parsed 1 86400) [
  | none ↦ invalid
  | some idle ↦ run_gc_of idle
]
parse_gc (a ∷ b ∷ rest) = invalid

unfoldable pub parse_revoke : List Argument → Run
parse_revoke [] = invalid
parse_revoke (a ∷ []) = invalid
parse_revoke (a ∷ b ∷ rest) = elim (parse_u32 a.parsed 1 4294967295) [
  | none ↦ invalid
  | some subject ↦ elim (class_of b) [
    | none ↦ invalid
    | some class ↦ elim (deadline_of rest) [
      | none ↦ invalid
      | some deadline ↦ run_revoke_of subject class deadline
    ]
  ]
]

-- `main`, up to the call of the command.
unfoldable pub dispatch : Action → List Argument → Run
dispatch status [] = run_status_of
dispatch status (a ∷ rest) = invalid
dispatch baseline rest = parse_baseline rest
dispatch gc rest = parse_gc rest
dispatch revoke rest = parse_revoke rest
dispatch other rest = invalid

-- The world that the commands meet.
pub record World : Type 0 where
  pub memory : Bool
  pub flows : Flows
  pub dump : Dump
  pub fallback : Fallback
  pub collection : Collection
  pub revocation : Revocation

-- A result's exit code; 1 where none is printed.
abbrev pub exit_of : Option Report → ℕ
exit_of none = 1
exit_of (some report) = exit_code report

-- The call of the command and its exit code. `none` is an access outside of an array.
unfoldable pub perform : World → Run → Option ℕ
perform world run_status_of = elim (run_status world.memory world.flows world.dump) [
  | none ↦ none
  | some report ↦ some (exit_of report)
]
perform world (run_baseline_of deadline) = elim (run_baseline deadline world.fallback) [
  | none ↦ none
  | some (report, asked) ↦ some (exit_of report)
]
perform world (run_gc_of idle) = elim (run_gc idle world.collection) [
  | none ↦ none
  | some (report, asked) ↦ some (exit_code report)
]
perform world (run_revoke_of subject class deadline) =
    elim (run_revoke subject class deadline world.revocation) [
      | none ↦ none
      | some (report, asked) ↦ some (exit_code report)
    ]
perform world invalid = some 2

unfoldable pub main : World → Action → List Argument → Option ℕ
main world action arguments = perform world (dispatch action arguments)
