-- ===== src/Sfo/Report.antt =====
-- sfo/client-access-sfoctl.c: the result of a command, the requests that destroy conntrack entries,
-- and what a pass makes of a scan. What the kernel answers to a request, and the clock, are
-- arguments; the entries that were asked to be destroyed are kept beside the result.
pub mod Settle
use client_access.Prelude.{
  ℕ, zero, suc, ◌+◌, Bool, true, false, not, ◌||◌, ◌&&◌, Option, none, some, List, [], ◌∷◌, ◌==◌,
  ltb, if◌then◌else◌, length,
}
use client_access.Prelude.Word.{u32, sub64}
use client_access.Sfo.Tuple.{Conntrack}
use client_access.Sfo.Scan.{CtList, Scan, Dump, new_list}

abbrev pub max_verification_passes : ℕ
max_verification_passes = 3

abbrev pub max_fallback_evictions : ℕ
max_fallback_evictions = 4096

pub data Result : Type 0 where
  complete : Result
  failed : Result

pub data Health : Type 0 where
  healthy : Health
  degraded : Health
  unknown : Health

pub record Report : Type 0 where
  pub result : Result
  pub correlation_health : Health
  pub tracked_flows : ℕ
  pub candidates : ℕ
  pub conntrack_entries : ℕ
  pub software_offloaded : ℕ
  pub hardware_offloaded : ℕ
  pub delete_attempts : ℕ
  pub delete_successes : ℕ
  pub already_absent : ℕ
  pub verification_failures : ℕ
  pub verification_passes : ℕ
  pub remaining : ℕ
  pub fallback_evictions : ℕ
  pub gc_reclaimed : ℕ
  pub latency_ms : ℕ
  pub deadline_exceeded : Bool
  pub fallback_used : Bool

-- `{ .result = result, .correlation_health = "HEALTHY" }`
abbrev pub new_report : Result → Report
new_report result = record {
  result = result;
  correlation_health = healthy;
  tracked_flows = 0;
  candidates = 0;
  conntrack_entries = 0;
  software_offloaded = 0;
  hardware_offloaded = 0;
  delete_attempts = 0;
  delete_successes = 0;
  already_absent = 0;
  verification_failures = 0;
  verification_passes = 0;
  remaining = 0;
  fallback_evictions = 0;
  gc_reclaimed = 0;
  latency_ms = 0;
  deadline_exceeded = false;
  fallback_used = false;
}

abbrev pub is_complete : Result → Bool
is_complete complete = true
is_complete failed = false

-- `return strcmp(result.result, "COMPLETE") != 0`
abbrev pub exit_code : Report → ℕ
exit_code report = if is_complete report.result then 0 else 1

-- `result.correlation_health = "DEGRADED"; result.verification_failures++`
abbrev pub fail : Report → Report
fail report = record report {
  correlation_health = degraded;
  verification_failures = u32 (suc report.verification_failures);
}

-- The answer to a request: done, ENOENT, or another error.
pub data Answer : Type 0 where
  destroyed : Answer
  absent : Answer
  refused : Answer

-- The loop of `delete_conntracks` from index `i` on: the result, whether 0 is returned, and the
-- entries that were asked for.
unfoldable pub destroy :
    (answer : ℕ → Conntrack → Answer)
    → (i : ℕ) → List Conntrack
    → Report
    → Report × Bool × List Conntrack
destroy answer i [] report = (report, true, [])
destroy answer i (ct ∷ rest) report =
    let asked = record report { delete_attempts = u32 (suc report.delete_attempts) } in
    let gone =
      destroy answer (suc i) rest
        (record asked { delete_successes = u32 (suc asked.delete_successes) }) in
    let missing =
      destroy answer (suc i) rest
        (record asked { already_absent = u32 (suc asked.already_absent) }) in
    elim (answer i ct) [
      | destroyed ↦ (gone.0, gone.1, ct ∷ gone.2)
      | absent ↦ (missing.0, missing.1, ct ∷ missing.2)
      | refused ↦ (asked, false, ct ∷ [])
    ]

unfoldable pub delete_conntracks :
    (opens : Bool)
    → (answer : ℕ → Conntrack → Answer) → List Conntrack
    → Report
    → Report × Bool × List Conntrack
delete_conntracks opens answer items report =
    if not opens then (report, false, []) else destroy answer 0 items report

-- What a pass meets: the table, the answers to its requests, and the clock after them.
pub record Pass : Type 0 where
  pub dump : Dump
  pub opens : Bool
  pub answer : ℕ → Conntrack → Answer
  pub now : ℕ

-- The list that a scan filled.
abbrev pub list_in : Option CtList → CtList
list_in none = new_list 0
list_in (some list) = list

abbrev pub list_of : Scan → CtList
list_of scan = list_in scan.matches

abbrev pub take_counts : Scan → Report → Report
take_counts scan report = record report {
  conntrack_entries = scan.entries;
  software_offloaded = scan.software;
  hardware_offloaded = scan.hardware;
}

abbrev pub evict : (fallback : Bool) → ℕ → Report → Report
evict true n report = record report { fallback_evictions = u32 (report.fallback_evictions + n) }
evict false n report = report

-- The rest of a pass after its scan, of `run_revoke` and, with `fallback`, of `run_baseline`: the
-- result, what was asked for, and whether there is another pass.
unfoldable pub settle :
    Pass
    → (start deadline_ms : ℕ) → (fallback : Bool) → Scan
    → (ok : Bool) → Report
    → Report × List Conntrack × Bool
settle pass start deadline_ms fallback scan ok report =
    if not ok || (scan.snapshot_overflow || (list_of scan).overflow)
    then (fail report, [], false)
    else let seen = record (take_counts scan report) { remaining = length (list_of scan).items } in
      if not (scan.hardware == 0)
      then (record seen { correlation_health = degraded }, [], false)
      else if length (list_of scan).items == 0
      then (record seen { result = complete }, [], false)
      else let (after, deleted, asked) =
          delete_conntracks pass.opens pass.answer (list_of scan).items
            (evict fallback (length (list_of scan).items) seen) in
        if not deleted
        then (
          record after { verification_failures = u32 (suc after.verification_failures) },
          asked,
          false,
        )
        else (after, asked, ltb (sub64 pass.now start) deadline_ms)

-- What follows the passes, where the clock is read at `finish`, and again at `printed` if the
-- latency is 0.
unfoldable pub conclude : (start deadline_ms finish printed : ℕ) → Report → Report
conclude start deadline_ms finish printed report =
    let latency = sub64 finish start in
    let timed = record report {
      latency_ms = if latency == 0 then sub64 printed start else latency;
    } in
    if ltb deadline_ms latency || (not (is_complete report.result) && not (report.remaining == 0))
    then record timed { deadline_exceeded = true; result = failed; correlation_health = degraded }
    else timed
