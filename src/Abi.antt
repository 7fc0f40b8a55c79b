-- ===== src/Abi.antt =====
-- src/client-access-bpf.h: the constants and structures that the datapath and the controllers share.
-- A field in network byte order stands for the number that its bytes spell, so `bpf_htons` and
-- `htons` are not seen. The 32 bytes of the address union are kept as bytes.
use client_access.Prelude.{ℕ, List}

-- `enum ca_verdict`; a verdict is kept as the byte that the maps hold.
abbrev pub verdict_allow : ℕ
verdict_allow = 0

abbrev pub verdict_deny : ℕ
verdict_deny = 1

abbrev pub class_default : ℕ
class_default = 0

abbrev pub class_unclassified : ℕ
class_unclassified = 1

-- `enum ca_classification_state`
abbrev pub flow_pending : ℕ
flow_pending = 0

abbrev pub flow_classified : ℕ
flow_classified = 1

abbrev pub flow_unclassified_final : ℕ
flow_unclassified_final = 2

-- `enum ca_class_kind`
abbrev pub kind_none : ℕ
kind_none = 0

abbrev pub kind_exact : ℕ
kind_exact = 1

abbrev pub kind_category : ℕ
kind_category = 2

abbrev pub kind_unclassified : ℕ
kind_unclassified = 3

abbrev pub max_subjects : ℕ
max_subjects = 1024

abbrev pub max_policy_entries : ℕ
max_policy_entries = 8192

abbrev pub max_flows : ℕ
max_flows = 16384

abbrev pub max_port_hints : ℕ
max_port_hints = 1024

abbrev pub max_ipv4_hints : ℕ
max_ipv4_hints = 4096

abbrev pub max_ipv6_hints : ℕ
max_ipv6_hints = 4096

abbrev pub stats_count : ℕ
stats_count = 22

-- `struct ca_config`; the spin lock is taken round every copy, so a copy is one value.
pub record Config : Type 0 where
  pub enabled : ℕ
  pub app_enforcement_enabled : ℕ
  pub active_slot : ℕ
  pub app_policy_generation : ℕ
  pub classifier_generation : ℕ
  pub unknown_subject_app_verdict : ℕ
  pub provisional_app_verdict : ℕ
  pub max_packets_inspected : ℕ
  pub max_bytes_examined : ℕ
  pub max_classification_age_ms : ℕ
  pub max_pending_entries : ℕ
  pub max_new_classifications_per_second : ℕ
  pub per_subject_new_classification_rate : ℕ

-- `struct ca_mac_key`: six bytes
abbrev pub MacKey : Type 0
MacKey = List ℕ

pub record PolicyKey : Type 0 where
  pub subject_id : ℕ
  pub class_id : ℕ

pub record ClassHint : Type 0 where
  pub class_id : ℕ
  pub category_id : ℕ
  pub kind : ℕ

pub record PortKey : Type 0 where
  pub ip_proto : ℕ
  pub dst_port : ℕ

-- `struct ca_ipv4_lpm_key` and `struct ca_ipv6_lpm_key`, with the address as bytes
pub record LpmKey : Type 0 where
  pub prefixlen : ℕ
  pub addr : List ℕ

pub record FlowKey : Type 0 where
  pub subject_id : ℕ
  pub eth_proto : ℕ
  pub ip_proto : ℕ
  pub src_port : ℕ
  pub dst_port : ℕ
  pub addr : List ℕ

pub record FlowState : Type 0 where
  pub first_seen_ns : ℕ
  pub last_seen_ns : ℕ
  pub app_policy_generation : ℕ
  pub classifier_generation : ℕ
  pub packets_examined : ℕ
  pub bytes_examined : ℕ
  pub class_id : ℕ
  pub classification_state : ℕ
  pub app_verdict : ℕ
  pub class_kind : ℕ
