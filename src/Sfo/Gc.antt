-- ===== src/Sfo/Gc.antt =====
-- sfo/client-access-sfoctl.c: `run_gc`, which drops the flow records that are idle and that no
-- conntrack entry matches. The keys whose deletion was asked for are kept beside the result.
pub mod Unmarked
pub mod Idle
use client_access.Prelude.{
  ℕ, zero, suc, ◌+◌, ◌-◌, ◌*◌, Bool, true, false, not, ◌||◌, Option, none, some, List, [], ◌∷◌,
  ◌==◌, ltb, leb, if◌then◌else◌, length,
}
use client_access.Prelude.Word.{u32, u64}
use client_access.Abi.{FlowKey, max_flows}
use client_access.Sfo.Candidates.{Candidate, Flows, Selection, collect_candidates}
use client_access.Sfo.Scan.{Dump, new_scan, conntrack_scan}
use client_access.Sfo.Report.{
  Report, Answer, destroyed, absent, refused, new_report, fail, take_counts, degraded, complete,
  failed,
}
use client_access.Sfo.Revoke.{set_in}

abbrev pub second_ns : ℕ
second_ns = 1000000000

-- The last time of a record that is not idle; `now` is in nanoseconds.
unfoldable pub cutoff : (now idle_seconds : ℕ) → ℕ
cutoff now idle_seconds =
    if ltb (idle_seconds * second_ns) now then now - idle_seconds * second_ns else 0

-- `candidates.items[i].present || candidates.items[i].state.last_seen_ns >= cutoff`
abbrev pub stays : (cutoff : ℕ) → Candidate → Bool
stays cutoff c = c.present || leb cutoff c.state.last_seen_ns

-- The loop over the candidates from index `i` on: the result, whether it reached the end, and the
-- keys that were asked for.
unfoldable pub reclaim :
    (answer : ℕ → FlowKey → Answer)
    → (cutoff i : ℕ) → List Candidate
    → Report
    → Report × Bool × List FlowKey
reclaim answer cutoff i [] report = (report, true, [])
reclaim answer cutoff i (c ∷ rest) report =
    let kept = reclaim answer cutoff (suc i) rest report in
    let gone =
      reclaim answer cutoff (suc i) rest
        (record report { gc_reclaimed = u32 (suc report.gc_reclaimed) }) in
    if stays cutoff c then kept else elim (answer i c.key) [
      | destroyed ↦ (gone.0, gone.1, c.key ∷ gone.2)
      | absent ↦ (kept.0, kept.1, c.key ∷ kept.2)
      | refused ↦ (fail report, false, c.key ∷ [])
    ]

-- What the command meets: its memory, the flow map, the clock (seconds and nanoseconds, if it can
-- be read), the table, whether the map opens again, and the answers to the deletions.
pub record Collection : Type 0 where
  pub memory : Bool
  pub flows : Flows
  pub clock : Option (ℕ × ℕ)
  pub dump : Dump
  pub opens : Bool
  pub answer : ℕ → FlowKey → Answer

abbrev pub all_flows : Selection
all_flows = record { subject = none; class = none }

-- What follows a scan that was complete.
unfoldable pub sweep :
    Collection → (idle_seconds now : ℕ) → List Candidate → Report → Report × List FlowKey
sweep env idle_seconds now items report =
    if not (report.hardware_offloaded == 0)
    then (record report { correlation_health = degraded }, [])
    else if not env.opens
    then (fail report, [])
    else let (after, ended, asked) = reclaim env.answer (cutoff now idle_seconds) 0 items report in
      if ended then (record after { result = complete }, asked) else (after, asked)

-- `none` is an access outside of the array of candidates.
unfoldable pub run_gc : (idle_seconds : ℕ) → Collection → Option (Report × List FlowKey)
run_gc idle_seconds env =
    if not env.memory
    then some (fail (new_report failed), [])
    else elim (collect_candidates env.flows all_flows max_flows) [
      | none ↦ some (fail (new_report failed), [])
      | some s ↦ elim env.clock [
        | none ↦ some (fail (new_report failed), [])
        | some (seconds, nanoseconds) ↦
            let counted = record (new_report failed) {
              candidates = length s.items;
              tracked_flows = length s.items;
            } in
            elim (conntrack_scan env.dump (new_scan (some s) none false)) [
              | none ↦ none
              | some (scan, ok) ↦
                  if not ok || scan.snapshot_overflow
                  then some (fail counted, [])
                  else some (
                      sweep env idle_seconds (u64 (seconds * second_ns + nanoseconds))
                        (set_in s scan.candidates).items (take_counts scan counted))
            ]
      ]
    ]
