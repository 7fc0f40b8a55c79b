-- ===== src/Lib.antt =====
-- Client Access: the packet datapath, the controller of its snapshots, filters and pins, and the
-- controller of software flow offload.
--
-- The program marks the packets of known stations for the firewall. Its parts in C are:
--   src/client-access-bpf.h     the constants and structures shared by all parts
--   src/client-access-bpf.c     the TC program `ca_ingress`, run by the kernel on every packet
--   src/bpf-snapshot.c          the command `sync`: reads a snapshot of subjects, policies and class
--                               hints and publishes it in the maps that the TC program reads
--   src/bpf-tc.c, src/bpf-runtime.c, src/bpf-health.c, src/bpf-object.c, src/bpfctl-common.c,
--   src/client-access-bpfctl.c, sfo/client-access-sfoctl.c
--                               attachment, garbage collection, health, loading, helpers, command
--                               line, and the separate program for flow offload
-- They interact through pinned BPF maps alone. The controller writes the slot of maps that is not
-- active and then replaces the control record; the TC program copies that record and reads the
-- slot that it names.
--
-- Files:
--   Prelude, Prelude/*          library names passed on; Boolean tests, lists and words on native
--                               numbers
--   Abi                         client-access-bpf.h
--   Kernel, Kernel/Functions    the hash maps of the kernel as an interface, and a value of it
--   Datapath/State              the maps, the packet, the counters; `active` is the choice of the slot
--                               in `ca_subject_lookup` and its like
--   Datapath/Parse              `ca_parse_flow`
--   Datapath/Verdict            `ca_policy_verdict`, `ca_emit_app_verdict`
--   Datapath/Classify           `ca_merge_hint`, `ca_classify`; Classify/Hints has the class that two
--                               hints give
--   Datapath/Rate               `ca_rate_take`, `ca_pending_reserve`, `ca_pending_release`;
--                               Rate/Interleaving has them as steps of many CPUs
--   Datapath/Flow               `ca_admit_classification`, `ca_record_terminal`,
--                               `ca_budget_exhausted`, `ca_try_terminal`, `ca_load_shed`
--   Datapath/Ingress            `ca_ingress`; Ingress/Spec has the verdict that it owes a packet
--   Snapshot/Prefix             `parse_prefix`, `canonicalize_prefix`
--   Snapshot/Line               `append_*`, `parse_hint`, `parse_snapshot`
--   Snapshot/Table              `clear_map` and the loops that populate a map
--   Snapshot/Sync               `ca_bpf_snapshot_sync`; Sync/Policy goes on to `ca_policy_verdict`
--   Tc                          `ca_bpf_tc_action`, `ca_bpf_tc_prune`,
--                               `ca_bpf_tc_verify_program_interfaces`
--   Controller                  bpf-object.c: `ca_bpf_object_available`, `ca_bpf_object_load`
--   Controller/Runtime          bpf-runtime.c: `ca_bpf_backend_disable`, `ca_bpf_gc_flows`
--   Controller/Health           bpf-health.c: `ca_bpf_verify_health`, `ca_bpf_print_status`
--   Controller/Command          client-access-bpfctl.c: `main`
--   Sfo/Tuple                   `candidate_hash`, `conntrack_hash`, `tuple_matches`
--   Sfo/Candidates              `collect_candidates`, `index_candidates`, the chains that `scan_cb` walks
--   Sfo/Scan                    `append_ct`, `scan_cb`, `conntrack_scan`; Scan/Reference has the scan
--                               without an index, Scan/Capacity the bound on the matches
--   Sfo/Report                  `delete_conntracks` and what a pass makes of a scan
--   Sfo/Revoke, Sfo/Gc, Sfo/Fallback
--                               `run_revoke`, `run_gc`, `run_baseline`
--   Sfo/Command                 `parse_u32`, `run_status`, `main`
--   Examples, Snapshot/Examples, Tc/Examples, Sfo/Examples, Controller/Examples
--                               the theorems at concrete inputs
--
-- Conventions. A packet is its linear bytes and its whole length; a read outside of the bytes is
-- `none`, which is not a result that the C program has. A field in network byte order is the number
-- that its bytes spell. A shift or a mask is a division, a multiplication or a remainder. A run of
-- `ca_ingress` has the flow map and the subject's rate map for itself, while other CPUs may change
-- the three atomic words between the load and the swap of each attempt (`Env`). The counters are
-- summed over the CPUs.
--
-- Bounds and fuel. The VLAN loop has two rounds and the compare-and-swap loops have eight attempts,
-- as in the source. `clear_map` has no bound in the source; here it takes fuel, and more fuel than
-- the map has entries is enough, since each round deletes one. The walk along a chain of candidates
-- has one round more than there are candidates, which is enough for the chains that the index
-- makes; the doubling of the bucket count has 64 rounds, the width of a `size_t`,
-- which is enough for the capacities of 4096 and 16384.
-- A list that the C program keeps in an array of fixed size (the candidates, the matches) is a list
-- with its capacity: a write is an append, so what is told of it is how many entries the test
-- against the capacity lets through.
--
-- Parameters. The kernel's maps (bpf-helpers(7), bpf(2)), the longest-prefix match, the clock, the
-- locks and the opening of maps, the failures of the calls on TC filters (one answer for each
-- coordinate, and one for the query after a refused attachment), `realloc`, `strtoul`,
-- `inet_pton`, and the fields that `sscanf` delivers for a line. Of the offload controller: the
-- conntrack entries that a dump delivers, with the attributes that libnetfilter_conntrack reads of
-- them, the answers to deletions, `calloc`, and the clock. Messages on the standard error are not
-- modelled.
--
-- Not modelled: the text that is printed, the paths of the pins, the limit of locked memory and the
-- estimate of memory in the status; the ucode daemon, the web interface and the firewall chains,
-- which are not C. Of a pin that is unlinked nothing is left; that `unlink` may fail is not
-- modelled. A product of seconds and nanoseconds is not wrapped where the callers bound the seconds.
pub mod Prelude
pub mod Abi
pub mod Kernel
pub mod Datapath
pub mod Snapshot
pub mod Tc
pub mod Controller
pub mod Sfo
pub mod Examples
