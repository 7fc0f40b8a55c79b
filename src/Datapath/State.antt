-- ===== src/Datapath/State.antt =====
-- src/client-access-bpf.c: the maps of the program, its packet and its counters.
-- The snapshot maps are read here through lookups alone; `Snapshot` fills them.
use client_access.Prelude.{ℕ, ◌+◌, Option, List, ◌==◌, ltb, ◌&&◌, if◌then◌else◌}
use client_access.Prelude.Word.{u64}
use client_access.Kernel.{BpfMap}
use client_access.Abi.{
  stats_count, Config, MacKey, PolicyKey, ClassHint, PortKey, LpmKey, FlowKey, FlowState,
}

-- The lookups in the maps `ca_subject_x` … `ca_ipv6_x` of one slot. The longest-prefix match of
-- the two tries is the kernel's.
pub record Slot : Type 0 where
  pub subject : MacKey → Option ℕ
  pub policy : PolicyKey → Option ℕ
  pub port : PortKey → Option ClassHint
  pub ipv4 : LpmKey → Option ClassHint
  pub ipv6 : LpmKey → Option ClassHint

-- The hash maps that the program writes: `ca_flows` and `ca_subject_rates`.
pub record Kernel : Type 1 where
  pub flow_map : BpfMap FlowKey FlowState
  pub rate_map : BpfMap ℕ ℕ

-- `ca_stats`, summed over the CPUs
abbrev pub Stats : Type 0
Stats = ℕ → ℕ

-- A `none` in an array map's only element is a NULL lookup.
pub record State (k : Kernel) : Type 0 where
  pub config : Option Config
  pub slot_a : Slot
  pub slot_b : Slot
  pub flows : k.flow_map.Map
  pub global_rate : Option ℕ
  pub subject_rates : k.rate_map.Map
  pub runtime : Option ℕ
  pub stats : Stats

-- `struct __sk_buff`: the linear bytes, the whole length and the mark
pub record SkBuff : Type 0 where
  pub bytes : List ℕ
  pub len : ℕ
  pub mark : ℕ

pub data TcAction : Type 0 where
  tc_act_unspec tc_act_ok tc_act_shot : TcAction

-- What one run of the program leaves.
pub record Done (k : Kernel) : Type 0 where
  pub state : State k
  pub skb : SkBuff
  pub action : TcAction

-- `ca_subject_lookup` and its like choose the map by the snapshot of the control record.
unfoldable pub active : {k : Kernel} → State k → Config → Slot
active s config = if config.active_slot == 0 then s.slot_a else s.slot_b

-- `enum ca_stat_id`, the members that the program counts
abbrev pub stat_packets : ℕ
stat_packets = 0

abbrev pub stat_flows_total : ℕ
stat_flows_total = 1

abbrev pub stat_flows_unclassified : ℕ
stat_flows_unclassified = 2

abbrev pub stat_flow_app_allow_verdicts : ℕ
stat_flow_app_allow_verdicts = 3

abbrev pub stat_flow_app_deny_verdicts : ℕ
stat_flow_app_deny_verdicts = 4

abbrev pub stat_flow_map_full : ℕ
stat_flow_map_full = 5

abbrev pub stat_policy_reevaluations : ℕ
stat_policy_reevaluations = 6

abbrev pub stat_unknown_subject_packets : ℕ
stat_unknown_subject_packets = 7

abbrev pub stat_flows_pending : ℕ
stat_flows_pending = 8

abbrev pub stat_flows_classified_exact : ℕ
stat_flows_classified_exact = 9

abbrev pub stat_flows_classified_category : ℕ
stat_flows_classified_category = 10

abbrev pub stat_flows_unclassified_budget : ℕ
stat_flows_unclassified_budget = 11

abbrev pub stat_flows_unclassified_load_shed : ℕ
stat_flows_unclassified_load_shed = 12

abbrev pub stat_classification_packets : ℕ
stat_classification_packets = 13

abbrev pub stat_classification_bytes : ℕ
stat_classification_bytes = 14

abbrev pub stat_classification_admission_denied : ℕ
stat_classification_admission_denied = 15

abbrev pub stat_packet_app_allow_verdicts : ℕ
stat_packet_app_allow_verdicts = 16

abbrev pub stat_packet_app_deny_verdicts : ℕ
stat_packet_app_deny_verdicts = 17

abbrev pub stat_parse_unsupported : ℕ
stat_parse_unsupported = 20

abbrev pub stat_classifier_conflicts : ℕ
stat_classifier_conflicts = 21

unfoldable pub stat_add : ℕ → ℕ → Stats → Stats
stat_add id amount stats i =
    if ltb id stats_count && i == id then u64 (stats i + amount) else stats i

unfoldable pub stat_inc : ℕ → Stats → Stats
stat_inc id = stat_add id 1
