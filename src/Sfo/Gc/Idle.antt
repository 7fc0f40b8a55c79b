-- ===== src/Sfo/Gc/Idle.antt =====
-- sfo/client-access-sfoctl.c: `run_gc` asks only for records that are idle and without an entry.
use client_access.Prelude.{
  ℕ, suc, ◌+◌, ◌*◌, ◌<◌, ◌≡◌, refl, sym, ap, false, not, ◌||◌, none, some, List, [], ◌∷◌, ◌==◌, leb,
  length, In, Bool-cases, Option-cases, inl, inr, arith,
}
use client_access.Prelude.Word.{u32, u64}
use mathlib.Core.Path.{subst}
use client_access.Abi.{FlowKey, FlowState, max_flows}
use client_access.Sfo.Tuple.{Conntrack, tuple_matches}
use client_access.Sfo.Candidates.{Candidate, Candidates, collect_candidates}
use client_access.Sfo.Candidates.Collect.{
  selected, records, In-records, collect_candidates-IsCollected,
}
use client_access.Sfo.Scan.Reference.{mark_dump}
use client_access.Sfo.Scan.Read.{IsRead, conntrack_scan-IsRead}
use client_access.Sfo.Scan.Query.{conntrack_scan-IsReference}
use client_access.Sfo.Report.{Report, Answer, new_report, fail, failed, take_counts}
use client_access.Sfo.Report.Settle.{Answer-cases}
use client_access.Sfo.Revoke.{set_in}
use client_access.Sfo.Revoke.Passes.{dumped}
use client_access.Sfo.Gc.Unmarked.{mark_dump-unmarked, In-selected}
use client_access.Sfo.Gc.{Collection, all_flows, cutoff, second_ns, stays, reclaim, sweep, run_gc}

-- A key that is asked for is that of an item that does not stay.
found_later :
    (c : Candidate) (rest : List Candidate) (cutoff : ℕ) (key : FlowKey) (d : Candidate)
    → In d rest
    → d.key ≡ key
    → stays cutoff d ≡ false
    → (x : Candidate) × In x (c ∷ rest) × (x.key ≡ key) × (stays cutoff x ≡ false)
found_later c rest cutoff key d found same goes = (d, inr found, same, goes)

reclaim-asked :
    (answer : ℕ → FlowKey → Answer) (cutoff i : ℕ) (items : List Candidate) (report : Report)
    → (key : FlowKey) → In key (reclaim answer cutoff i items report).2
    → (c : Candidate) × In c items × (c.key ≡ key) × (stays cutoff c ≡ false)
unfolding reclaim
reclaim-asked answer cutoff i [] report key at = absurd at
reclaim-asked answer cutoff i (c ∷ rest) report key at =
    let later = λ (r : Report) (there : In key (reclaim answer cutoff (suc i) rest r).2).
      let (d, found, same, goes) = reclaim-asked answer cutoff (suc i) rest r key there in
      found_later c rest cutoff key d found same goes in
    elim (Bool-cases (stays cutoff c)) [
      | inl skip ↦ later report (rw (skip, reclaim) at at)
      | inr goes ↦ elim (Answer-cases (answer i c.key)) [
        | inl done ↦ elim (rw (goes, done, reclaim) at at) [
          | inl here ↦ (c, inl refl, sym here, goes)
          | inr there ↦ later (record report { gc_reclaimed = u32 (suc report.gc_reclaimed) }) there
        ]
        | inr (inl gone) ↦ elim (rw (goes, gone, reclaim) at at) [
          | inl here ↦ (c, inl refl, sym here, goes)
          | inr there ↦ later report there
        ]
        | inr (inr denied) ↦ elim (rw (goes, denied, reclaim) at at) [
          | inl here ↦ (c, inl refl, sym here, goes)
          | inr there ↦ absurd there
        ]
      ]
    ]

-- The records that a collection may drop: idle, and without an entry in a table read to its end.
abbrev pub IsIdle : Collection → (idle_seconds : ℕ) → FlowKey → Type 0
IsIdle env idle_seconds key =
    (state : FlowState) × (seconds : ℕ) × (nanoseconds : ℕ) × In (key, some state) env.flows.entries
    × (env.clock ≡ some (seconds, nanoseconds))
    × (state.last_seen_ns + idle_seconds * second_ns < u64 (seconds * second_ns + nanoseconds))
    × IsRead env.dump
    × ((ct : Conntrack) → In ct (dumped env.dump) → tuple_matches key ct ≡ false)

cutoff-lt :
    (now idle_seconds seen : ℕ)
    → leb (cutoff now idle_seconds) seen ≡ false
    → seen + idle_seconds * second_ns < now
unfolding cutoff
cutoff-lt now idle_seconds seen h = ground arith

sweep-asked :
    (env : Collection) (idle_seconds now : ℕ) (items : List Candidate) (report : Report)
    → (key : FlowKey) → In key (sweep env idle_seconds now items report).1
    → (c : Candidate) × In c items × (c.key ≡ key) × (stays (cutoff now idle_seconds) c ≡ false)
unfolding sweep
sweep-asked env idle_seconds now items report key at =
    elim (Bool-cases (report.hardware_offloaded == 0)) [
      | inr hard ↦ absurd (rw (hard, sweep) at at)
      | inl soft ↦ elim (Bool-cases env.opens) [
        | inr closed ↦ absurd (rw (soft, closed, sweep) at at)
        | inl opened ↦
            let out = reclaim env.answer (cutoff now idle_seconds) 0 items report in
            reclaim-asked env.answer (cutoff now idle_seconds) 0 items report key
              (elim (Bool-cases out.1) [
                | inl ended ↦ rw (soft, opened, ended, sweep) at at
                | inr broken ↦ rw (soft, opened, broken, sweep) at at
              ])
      ]
    ]

unmarked-IsIdle :
    (env : Collection) (idle_seconds seconds nanoseconds : ℕ) (s : Candidates) (c : Candidate)
    → env.clock ≡ some (seconds, nanoseconds)
    → records s.items ≡ records (selected all_flows env.flows.entries)
    → In c (mark_dump env.dump.entries s.items)
    → stays (cutoff (u64 (seconds * second_ns + nanoseconds)) idle_seconds) c ≡ false
    → IsRead env.dump
    → IsIdle env idle_seconds c.key
unmarked-IsIdle env idle_seconds seconds nanoseconds s c clock same at goes read =
    let now = u64 (seconds * second_ns + nanoseconds) in
    let (old, misses) = mark_dump-unmarked env.dump.entries s.items c at (ground arith) in
    let kept = subst (In (c.key, c.state)) same (In-records c s.items old) in
    (
      c.state,
      seconds,
      nanoseconds,
      In-selected all_flows env.flows.entries (c.key, c.state) kept,
      clock,
      cutoff-lt now idle_seconds c.state.last_seen_ns (ground arith),
      read,
      misses,
    )

-- A collection ends, and every record that it asks to be dropped is of the flow map, was last seen
-- more than the idle time ago, and has no entry in the table, which was read to its end without a
-- call that failed.
pub run_gc-asked :
    (idle_seconds : ℕ) (env : Collection)
    → (report : Report) × (asked : List FlowKey) × (run_gc idle_seconds env ≡ some (report, asked))
      × ((key : FlowKey) → In key asked → IsIdle env idle_seconds key)
unfolding run_gc
run_gc-asked idle_seconds env =
    let unable = fail (new_report failed) in
    elim (Bool-cases env.memory) [
      | inr full ↦ (unable, [], rw full refl, λ key at. absurd at)
      | inl room ↦ elim (Option-cases (collect_candidates env.flows all_flows max_flows)) [
        | inl over ↦ (unable, [], simp (room, over, run_gc), λ key at. absurd at)
        | inr (s, collected) ↦ elim (Option-cases env.clock) [
          | inl stopped ↦ (unable, [], simp (room, collected, stopped, run_gc), λ key at. absurd at)
          | inr ((seconds, nanoseconds), clock) ↦
              let (same, few, tracked) =
                collect_candidates-IsCollected env.flows all_flows max_flows s (omega arith)
                  collected in
              let (scan, ok, e, found) = conntrack_scan-IsReference env.dump s none tracked refl in
              let counted = record (new_report failed) {
                candidates = length s.items;
                tracked_flows = length s.items;
              } in
              elim (Bool-cases (not ok || scan.snapshot_overflow)) [
                | inl bad ↦ (
                  fail counted,
                  [],
                  simp (room, collected, clock, e, bad, run_gc),
                  λ key at. absurd at,
                )
                | inr fine ↦
                    let (own, _, _, _, _) = found (ground arith) (ground arith) (inr refl) in
                    let now = u64 (seconds * second_ns + nanoseconds) in
                    let items = (set_in s scan.candidates).items in
                    let swept = sweep env idle_seconds now items (take_counts scan counted) in
                    (
                      swept.0,
                      swept.1,
                      simp (room, collected, clock, e, fine, run_gc),
                      λ key at.
                          let (c, there, mine, goes) =
                            sweep-asked env idle_seconds now items (take_counts scan counted) key
                              at in
                          let marked = subst (In c) (ap (λ o. (set_in s o).items) own) there in
                          subst (IsIdle env idle_seconds) mine (
                            unmarked-IsIdle env idle_seconds seconds nanoseconds s c clock same
                              marked goes
                              (conntrack_scan-IsRead env.dump _ scan ok e (ground arith))),
                    )
              ]
        ]
      ]
    ]
