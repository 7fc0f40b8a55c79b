-- ===== src/Examples.antt =====
-- The theorems applied at concrete packets, maps and words, and tests of the parser.
-- `frame` is a TCP segment over IPv4 from the station 02:00:00:00:00:01.
use client_access.Prelude.{
  ◌≢◌, inl, inr, replicate, ◌++◌, ℕ, ◌+◌, ◌^◌, ◌≤◌, ◌<◌, ◌≡◌, refl, none, some, List, [], ◌∷◌,
  arith, length, ◌==◌, ◌&&◌, if◌then◌else◌, min, max,
}
use client_access.Prelude.Word.{low32, high32}
use mathlib.Core.Option
use mathlib.Core.Path.{subst}
use native.Mathlib.Decide.{ℕ_discrete}
use client_access.Abi.{Config, FlowKey, FlowState, ClassHint, kind_none}
use client_access.Kernel.Functions.{functions}
use client_access.Datapath.Parse.{
  read_bytes, skip_vlans, after_vlans, after_network, parse_network, parse_transport, parse_ipv4,
  parse_tcp, finish, parse_ok, parse_no_ethernet, Parsed, parse_flow,
}
use client_access.Datapath.Parse.Safety.{parse_flow_in_bounds}
use client_access.Datapath.State.{Kernel, State, Slot, SkBuff, Done, Stats, active}
use client_access.Datapath.Verdict.Mark.{deny_bit, denies}
use client_access.Datapath.Classify.{class_of, merge_hints}
use client_access.Datapath.Classify.Merge.{class_of-merge_hints_comm}
use client_access.Datapath.Rate.{
  cas_loop, pending_next, pending_reserve, pending_release, rate_window_ns,
}
use client_access.Datapath.Rate.Pending.{reserve-release, KeepsCount}
use client_access.Datapath.Rate.Interleaving.{
  Cpu, outside, trying, loaded, holding, Move, enter, load, swap, System, Step, turn, Reach, start,
  later, IsCounted, Reach-IsCounted,
}
use client_access.Datapath.Rate.Window.{burst, IsSecond, burst-limit}
use client_access.Datapath.Flow.{Env, try_terminal}
use client_access.Datapath.Flow.Decision.{IsServable, Decided, try_terminal-Decided}
use client_access.Datapath.Ingress.{ingress, pending_flow}
use client_access.Datapath.Ingress.Mark.{Marked, judging, has_ethernet, ingress_marks}
use client_access.Datapath.Ingress.Coherent.{FlowKey-discrete}
use client_access.Datapath.Ingress.Coherence.{IsCoherent, ingress-IsCoherent}
use client_access.Datapath.Ingress.Spec.{due, IsClassed}
use client_access.Datapath.Ingress.Refinement.{ingress-due}
use client_access.Datapath.Ingress.Accounting.{ingress-KeepsCount}

abbrev kernel : Kernel
kernel = record { flow_map = functions FlowKey-discrete; rate_map = functions ℕ_discrete }

abbrev published : Config
published = record {
  enabled = 1;
  app_enforcement_enabled = 1;
  active_slot = 0;
  app_policy_generation = 2;
  classifier_generation = 1;
  unknown_subject_app_verdict = 0;
  provisional_app_verdict = 0;
  max_packets_inspected = 1;
  max_bytes_examined = 4096;
  max_classification_age_ms = 1000;
  max_pending_entries = 4;
  max_new_classifications_per_second = 100;
  per_subject_new_classification_rate = 10;
}

abbrev exact_seven : ClassHint
exact_seven = record { class_id = 7; category_id = 0; kind = 1 }

-- One subject, denied class 7, which is that of every port.
abbrev slot : Slot
slot = record {
  subject = λ mac. some 5;
  policy = λ key. if key.class_id == 7 then some 1 else none;
  port = λ key. some exact_seven;
  ipv4 = λ key. none;
  ipv6 = λ key. none;
}

-- A classified record of an older generation, with the verdict to allow.
abbrev stale : FlowState
stale = record {
  first_seen_ns = 0;
  last_seen_ns = 0;
  app_policy_generation = 1;
  classifier_generation = 1;
  packets_examined = 1;
  bytes_examined = 54;
  class_id = 7;
  classification_state = 1;
  app_verdict = 0;
  class_kind = 1;
}

abbrev no_counts : Stats
no_counts i = 0

abbrev before : State kernel
before = record {
  config = some published;
  slot_a = slot;
  slot_b = slot;
  flows = λ key. some stale;
  global_rate = some 0;
  subject_rates = λ subject. some 0;
  runtime = some 0;
  stats = no_counts;
}

abbrev frame : List ℕ
frame =
    2 ∷ 0 ∷ 0 ∷ 0 ∷ 0 ∷ 2 ∷ 2 ∷ 0 ∷ 0 ∷ 0 ∷ 0 ∷ 1 ∷ 8 ∷ 0 ∷ 69 ∷ 0 ∷ 0 ∷ 40 ∷ 0 ∷ 0 ∷ 0 ∷ 0 ∷ 64 ∷ 6
    ∷ 0 ∷ 0 ∷ 10 ∷ 0 ∷ 0 ∷ 1 ∷ 10 ∷ 0 ∷ 0 ∷ 2 ∷ 4 ∷ 0 ∷ 1 ∷ 187 ∷ 0 ∷ 0 ∷ 0 ∷ 0 ∷ 0 ∷ 0 ∷ 0 ∷ 0 ∷ 80
    ∷ 0 ∷ 0 ∷ 0 ∷ 0 ∷ 0 ∷ 0 ∷ 0 ∷ []

abbrev skb : SkBuff
skb = record { bytes = frame; len = 54; mark = 3 }

abbrev alone : Env
alone = record { now = 5_000_000_000; global_others = []; subject_others = []; pending_others = [] }

stale-IsServable :
    (key : FlowKey) (flow : FlowState) → some stale ≡ some flow → IsServable slot published key flow
stale-IsServable key flow e =
    subst (IsServable slot published key) (Option.some-injective stale flow e)
      (record { settled = ground arith; current = λ g. absurd (ground arith) })

before-IsCoherent : IsCoherent before
unfolding active
before-IsCoherent config e key flow there =
    subst (λ c. IsServable (active before c) c key flow) (Option.some-injective published config e)
      (stale-IsServable key flow there)

abbrev frame_parsed : Parsed
frame_parsed = record {
  result = parse_ok;
  key = record {
    subject_id = 0;
    eth_proto = 2048;
    ip_proto = 6;
    src_port = 1024;
    dst_port = 443;
    addr = (10 ∷ 0 ∷ 0 ∷ 1 ∷ 10 ∷ 0 ∷ 0 ∷ 2 ∷ []) ++ replicate 24 0;
  };
  mac = 2 ∷ 0 ∷ 0 ∷ 0 ∷ 0 ∷ 1 ∷ [];
  examined = 54;
}

-- The segment is accepted, all its 54 bytes are examined, and the ports are read.
parse_flow-frame : parse_flow frame 54 ≡ some frame_parsed
unfolding parse_flow read_bytes skip_vlans after_vlans after_network parse_network parse_transport
    parse_ipv4 parse_tcp finish
parse_flow-frame = refl

before-IsClassed : IsClassed alone published before frame_parsed
unfolding active
before-IsClassed subject flow known there =
    let same = Option.some-injective stale flow there in
    subst (λ f. f.class_kind ≢ kind_none) same (ground arith)

ingress-due_example :
    (d : Done kernel) × (ingress alone skb before ≡ some d)
    × (deny_bit d.skb ≡ denies (due alone published before frame_parsed))
ingress-due_example =
    ingress-due alone skb before published frame_parsed before-IsCoherent refl (ground arith) refl
      (omega arith) parse_flow-frame before-IsClassed

ingress-IsCoherent_example :
    (d : Done kernel) × (ingress alone skb before ≡ some d) × IsCoherent d.state
ingress-IsCoherent_example = ingress-IsCoherent alone skb before before-IsCoherent

ingress_marks_example :
    (d : Done kernel) × (ingress alone skb before ≡ some d)
    × Marked skb (judging before.config && has_ethernet skb) d
ingress_marks_example = ingress_marks alone skb before

ingress-KeepsCount_example :
    (d : Done kernel) × (ingress alone skb before ≡ some d) × KeepsCount 0 d.state.runtime
ingress-KeepsCount_example =
    ingress-KeepsCount alone skb before published 0 refl (omega arith) (omega arith) refl
      (ground arith) refl

parse_flow_in_bounds_example :
    (r : Parsed) × (parse_flow frame 54 ≡ some r)
    × ((r.result ≡ parse_ok → (34 ≤ r.examined) × (r.examined ≤ length frame))
        × (r.result ≡ parse_no_ethernet → length frame < 14))
parse_flow_in_bounds_example = parse_flow_in_bounds frame 54

abbrev times : List ℕ
times = 5_000_000_000 ∷ 5_400_000_000 ∷ 5_999_999_999 ∷ []

times-IsSecond : IsSecond 5 times
times-IsSecond now at = elim at [
  | inl here ↦ (omega (arith, here), omega (arith, here))
  | inr (inl here) ↦ (omega (arith, here), omega (arith, here))
  | inr (inr (inl here)) ↦ (omega (arith, here), omega (arith, here))
  | inr (inr (inr none_left)) ↦ absurd none_left
]

burst-limit_example : (burst times 2 0).0 ≡ min (length times) 2
burst-limit_example =
    burst-limit times 5 2 0 times-IsSecond (ground arith) (omega arith) (omega arith) (omega arith)

reserve-release_example :
    (v : ℕ) × (pending_release (pending_reserve [] (some 0) 4).1 ≡ some v)
    × (low32 v ≡ low32 0)
    × (high32 v ≡ max (high32 0) (low32 0 + 1))
unfolding pending_reserve cas_loop pending_next
reserve-release_example = reserve-release 4 0 (omega arith) (omega arith) refl

class_of-merge_hints_comm_example :
    class_of (merge_hints (some exact_seven) none) ≡ class_of (merge_hints none (some exact_seven))
class_of-merge_hints_comm_example = class_of-merge_hints_comm (some exact_seven) none

abbrev key : FlowKey
key = record {
  subject_id = 5;
  eth_proto = 2048;
  ip_proto = 6;
  src_port = 1024;
  dst_port = 443;
  addr = [];
}

try_terminal-Decided_example :
    Decided slot published key
      (try_terminal slot published (pending_flow published 0 54) key 5 0 no_counts)
try_terminal-Decided_example =
    try_terminal-Decided slot published (pending_flow published 0 54) key 0 no_counts (omega arith)

abbrev idle : System
idle = record { word = 0; cpus = outside ∷ [] }

abbrev reserved : System
reserved = record { word = 2 ^ 32 + 1; cpus = holding ∷ [] }

idle-reserved : Reach 4 idle reserved
unfolding pending_next
idle-reserved =
    later {t = record { word = 0; cpus = loaded 7 0 ∷ [] }}
      (later {t = record { word = 0; cpus = trying 8 ∷ [] }}
        (later start (turn [] [] outside (trying 8) refl refl enter))
        (turn [] [] (trying 8) (loaded 7 0) refl refl load))
      (turn [] [] (loaded 7 0) holding refl refl (swap refl refl))

idle-IsCounted : IsCounted 4 idle
unfolding client_access.Datapath.Rate.Interleaving.holders
idle-IsCounted = record {
  fits = omega arith;
  counted = refl;
  bounded = omega arith;
  peak = omega arith;
}

Reach-IsCounted_example : IsCounted 4 reserved
Reach-IsCounted_example = Reach-IsCounted (omega arith) idle-IsCounted idle-reserved
