-- ===== src/Sfo/Examples.antt =====
-- The theorems on the offload controller applied to a flow of TCP over IPv4 and its entry.
use client_access.Prelude.{
  ◌*◌, ℕ, zero, suc, ◌<◌, ◌≤◌, ◌≡◌, ◌⊎◌, refl, Bool, true, false, none, some, List, [], ◌∷◌, In,
  inl, length, arith,
}
use client_access.Prelude.Word.{sub64}
use client_access.Abi.{FlowKey, FlowState}
use client_access.Datapath.Parse.{eth_p_ip, ipproto_tcp}
use client_access.Sfo.Tuple.{
  Conntrack, candidate_hash, conntrack_hash, tuple_matches, hash_bytes, supported_flow,
  supported_conntrack_tuple, software_offloaded, hardware_offloaded,
}
use client_access.Sfo.Tuple.Hash.{candidate_hash-eq-conntrack_hash}
use client_access.Sfo.Candidates.{
  Candidates, Flows, collect_candidates, collect, index_candidates, double_buckets, link,
  mark_candidates, walk, clear_present, selects, max_candidates, chain_end, set_bucket, bucket,
}
use client_access.Sfo.Candidates.Collect.{selected, IsCollected, collect_candidates-IsCollected}
use client_access.Sfo.Scan.{
  Scan, Dump, conntrack_scan, query_dump, scan_cb, match_entry, count_entry, append_if, append_ct,
  new_scan,
}
use client_access.Sfo.Scan.Marking.{IsTracked}
use client_access.Sfo.Scan.Query.{HasRoom, IsReference, conntrack_scan-IsReference}
use client_access.Sfo.Report.{
  Report, Pass, destroyed, absent, new_report, complete, settle, delete_conntracks, destroy,
  conclude, max_verification_passes,
}
use client_access.Sfo.Revoke.{Revocation, revoke_passes, run_revoke, wanted}
use client_access.Sfo.Revoke.Passes.{dumped}
use client_access.Sfo.Revoke.OfFlow.{IsOfFlow}
use client_access.Sfo.Revoke.Outcome.{run_revoke-ends, run_revoke-complete, run_revoke-asked}
use client_access.Sfo.Candidates.Chain.{any_matches}
use client_access.Sfo.Scan.Read.{IsRead}
use client_access.Sfo.Scan.Reference.{hits, count_if}
use client_access.Sfo.Revoke.Completes.{IsReadable}
use client_access.Sfo.Candidates.Total.{collect_candidates-succeeds}
use client_access.Sfo.Revoke.Liveness.{run_revoke-completes}
use client_access.Sfo.Gc.{Collection, run_gc}
use client_access.Sfo.Gc.Idle.{IsIdle, run_gc-asked}
use client_access.Sfo.Fallback.{Fallback, run_baseline}
use client_access.Sfo.Fallback.Offloaded.{is_evicted}
use client_access.Sfo.Fallback.Baseline.{run_baseline-Offloaded}
use client_access.Sfo.Command.{Argument, World, invalid, revoke, dispatch, main}
use client_access.Sfo.Command.Exit.{IsBounded, dispatch-IsBounded}
use client_access.Sfo.Command.Main.{main-exit}

abbrev key : FlowKey
key = record {
  subject_id = 7;
  eth_proto = eth_p_ip;
  ip_proto = ipproto_tcp;
  src_port = 40000;
  dst_port = 443;
  addr =
      10 ∷ 0 ∷ 0 ∷ 2 ∷ 93 ∷ 184 ∷ 216 ∷ 34 ∷ 0 ∷ 0 ∷ 0 ∷ 0 ∷ 0 ∷ 0 ∷ 0 ∷ 0 ∷ 0 ∷ 0 ∷ 0 ∷ 0 ∷ 0 ∷ 0
      ∷ 0 ∷ 0 ∷ 0 ∷ 0 ∷ 0 ∷ 0 ∷ 0 ∷ 0 ∷ 0 ∷ 0 ∷ [];
}

abbrev state : FlowState
state = record {
  first_seen_ns = 1000;
  last_seen_ns = 2000;
  app_policy_generation = 1;
  classifier_generation = 1;
  packets_examined = 1;
  bytes_examined = 60;
  class_id = 5;
  classification_state = 1;
  app_verdict = 1;
  class_kind = 1;
}

abbrev entry : Conntrack
entry = record {
  l3proto = some 2;
  l4proto = some 6;
  port_src = some 40000;
  port_dst = some 443;
  ipv4_src = some (10 ∷ 0 ∷ 0 ∷ 2 ∷ []);
  ipv4_dst = some (93 ∷ 184 ∷ 216 ∷ 34 ∷ []);
  ipv6_src = none;
  ipv6_dst = none;
  status = some 16384;
}

entry_matches : tuple_matches key entry ≡ true
unfolding tuple_matches
entry_matches = refl

candidate_hash-eq-conntrack_hash_example : candidate_hash key ≡ conntrack_hash entry
candidate_hash-eq-conntrack_hash_example = candidate_hash-eq-conntrack_hash key entry entry_matches

abbrev flows : Flows
flows = record { opens = true; enoent = false; entries = (key, some state) ∷ []; memory = true }

-- The same map, where an empty one would give ENOENT.
abbrev flows_complete : Flows
flows_complete = record flows { enoent = true }

abbrev table : List (Conntrack × Bool) → Dump
table entries = record { opens = true; registers = true; entries = entries; succeeds = true }

-- The entry is there in the first pass alone.
abbrev pass : ℕ → Pass
pass zero = record {
  dump = table ((entry, true) ∷ []);
  opens = true;
  answer = λ i ct. destroyed;
  now = 110;
}
pass (suc n) = record { dump = table []; opens = true; answer = λ i ct. absent; now = 130 }

abbrev revocation : Revocation
revocation = record {
  memory = true;
  flows = flows;
  pass = pass;
  start = 100;
  finish = 130;
  printed = 131;
}

abbrev revoked_report : Report
revoked_report = record (new_report complete) {
  candidates = 1;
  delete_attempts = 1;
  delete_successes = 1;
  verification_passes = 2;
  latency_ms = 30;
}

revoked : run_revoke 7 none 2000 revocation ≡ some (revoked_report, entry ∷ [])
unfolding run_revoke collect_candidates collect index_candidates double_buckets link mark_candidates
    walk clear_present selects supported_flow candidate_hash conntrack_hash hash_bytes tuple_matches
    supported_conntrack_tuple conntrack_scan query_dump scan_cb match_entry count_entry append_if
    append_ct revoke_passes settle delete_conntracks destroy conclude
revoked = refl

run_revoke-ends_example :
    (report : Report) × (asked : List Conntrack) × (run_revoke 7 none 2000 revocation
      ≡ some (report, asked))
    × (report.verification_passes ≤ 3)
    × (length asked ≤ 3 * 4096)
run_revoke-ends_example = run_revoke-ends 7 none 2000 revocation

run_revoke-complete_example :
    ((j : ℕ) × (j < max_verification_passes)
      × IsRead (revocation.pass j).dump
      × ((ct : Conntrack)
          → In ct (dumped (revocation.pass j).dump)
          → ¬ IsOfFlow revocation.flows.entries 7 none ct × (hardware_offloaded ct ≡ false)))
    × (sub64 revocation.finish revocation.start ≤ 2000)
run_revoke-complete_example =
    run_revoke-complete 7 none 2000 revocation revoked_report (entry ∷ []) revoked refl

run_revoke-asked_example :
    IsOfFlow revocation.flows.entries 7 none entry
    × (j : ℕ) × (j < max_verification_passes)
    × In entry (dumped (revocation.pass j).dump)
run_revoke-asked_example =
    run_revoke-asked 7 none 2000 revocation revoked_report (entry ∷ []) entry revoked (inl refl)

abbrev collected : Candidates
collected = record {
  items = record { key = key; state = state; next = chain_end; present = false } ∷ [];
  capacity = max_candidates;
  buckets = some (set_bucket (λ b. chain_end) (bucket 8192 key) 0);
  bucket_count = 8192;
}

collected_flows : collect_candidates flows (wanted 7 none) max_candidates ≡ some collected
unfolding collect_candidates collect index_candidates double_buckets link selects supported_flow
    candidate_hash hash_bytes
collected_flows = refl

collect_candidates-IsCollected_example :
    IsCollected flows.entries (wanted 7 none) max_candidates collected
collect_candidates-IsCollected_example =
    collect_candidates-IsCollected flows (wanted 7 none) max_candidates collected (omega arith)
      collected_flows

collected-IsTracked : IsTracked collected
collected-IsTracked =
    (collect_candidates-IsCollected flows (wanted 7 none) max_candidates collected (omega arith)
      collected_flows).2

conntrack_scan-IsReference_example :
    (after : Scan) × (ok : Bool) × (conntrack_scan
        (pass 0).dump
        (new_scan (some collected) none false)
      ≡ some (after, ok))
    × (ok ≡ true
        → after.snapshot_overflow ≡ false
        → HasRoom (new_scan (some collected) none false) after
        → IsReference (pass 0).dump.entries (new_scan (some collected) none false) collected after)
conntrack_scan-IsReference_example =
    conntrack_scan-IsReference (pass 0).dump collected none collected-IsTracked refl

first-IsReadable : IsReadable (selected (wanted 7 none) flows.entries) (pass 0).dump
unfolding hits selected selects supported_flow any_matches tuple_matches count_if
first-IsReadable = (refl, refl, refl, (refl, tt), omega arith, omega arith, refl)

second-IsReadable : IsReadable (selected (wanted 7 none) flows.entries) (pass 1).dump
unfolding hits count_if
second-IsReadable = (refl, refl, refl, tt, omega arith, omega arith, refl)

second_clean : hits (selected (wanted 7 none) flows.entries) (pass 1).dump.entries ≡ []
unfolding hits
second_clean = refl

run_revoke-completes_example :
    (report : Report) × (asked : List Conntrack) × (run_revoke 7 none 2000 revocation
      ≡ some (report, asked))
    × (report.result ≡ complete)
run_revoke-completes_example =
    run_revoke-completes 7 none 2000 revocation collected refl collected_flows first-IsReadable refl
      (λ i ct. inl refl) (omega arith) second-IsReadable second_clean (omega arith)

selected_few : length (selected (wanted 7 none) flows.entries) ≤ max_candidates
unfolding selected selects supported_flow
selected_few = omega arith

collect_candidates-succeeds_example :
    (s : Candidates) × (collect_candidates flows_complete (wanted 7 none) max_candidates ≡ some s)
collect_candidates-succeeds_example =
    collect_candidates-succeeds flows_complete (wanted 7 none) max_candidates (inl refl) refl refl
      refl selected_few

-- The flow was last seen an hour ago and has no entry.
abbrev collection : Collection
collection = record {
  memory = true;
  flows = flows;
  clock = some (3600, 0);
  dump = table [];
  opens = true;
  answer = λ i key. destroyed;
}

run_gc-asked_example :
    (report : Report) × (asked : List FlowKey) × (run_gc 60 collection ≡ some (report, asked))
    × ((key : FlowKey) → In key asked → IsIdle collection 60 key)
run_gc-asked_example = run_gc-asked 60 collection

abbrev fallback : Fallback
fallback = record { memory = true; pass = pass; start = 100; finish = 130 }

run_baseline-Offloaded_example :
    (report : Report) × (asked : List Conntrack) × (run_baseline 2000 fallback
      ≡ some (some report, asked))
    × (report.verification_passes ≤ max_verification_passes)
    × ((ct : Conntrack)
        → In ct asked
        → (is_evicted ct ≡ true)
          × (j : ℕ) × (j < max_verification_passes)
          × In ct (dumped (fallback.pass j).dump))
    × (report.result ≡ complete
        → (sub64 fallback.finish fallback.start ≤ 2000)
          × (j : ℕ) × (j < max_verification_passes)
          × IsRead (fallback.pass j).dump
          × ((ct : Conntrack)
              → In ct (dumped (fallback.pass j).dump)
              → (software_offloaded ct ≡ false) × (hardware_offloaded ct ≡ false)))
run_baseline-Offloaded_example = run_baseline-Offloaded 2000 fallback refl

-- `revoke 7 -`
abbrev arguments : List Argument
arguments =
    record { is_dash = false; parsed = record { value = 7; in_range = true; at_end = true } }
    ∷ record { is_dash = true; parsed = record { value = 0; in_range = true; at_end = false } }
    ∷ []

abbrev world : World
world = record {
  memory = true;
  flows = flows;
  dump = table [];
  fallback = fallback;
  collection = collection;
  revocation = revocation;
}

dispatch-IsBounded_example : IsBounded (dispatch revoke arguments)
dispatch-IsBounded_example = dispatch-IsBounded revoke arguments

main-exit_example :
    (main world revoke arguments ≡ some 2) × (dispatch revoke arguments ≡ invalid)
    ⊎ (code : ℕ) × (main world revoke arguments ≡ some code) × (code ≤ 1)
main-exit_example = main-exit world revoke arguments
