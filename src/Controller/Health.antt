-- ===== src/Controller/Health.antt =====
-- src/bpf-health.c: `ca_bpf_verify_health`, the counts of the maps and the numbers of
-- `ca_bpf_print_status`.
pub mod Fixed
pub mod Subjects
use client_access.Prelude.{
  ℕ, suc, ◌+◌, Bool, true, false, not, ◌&&◌, ◌||◌, Option, none, some, List, [], ◌∷◌, ◌++◌, ◌==◌,
  ltb, leb, if◌then◌else◌, length,
}
use client_access.Prelude.Word.{u64, high32, low32}
use client_access.Abi.{Config, FlowKey, FlowState, max_subjects, stats_count}
use client_access.Tc.{owned, Filters, Name, query, program, absent, failed, verify_interfaces}
use client_access.Controller.{
  Bpf, System, MapName, object_available, all_pinned, ca_config, ca_mark_schema, ca_subject_a,
  ca_subject_b, ca_policy_a, ca_policy_b, ca_port_a, ca_port_b, ca_ipv4_a, ca_ipv4_b, ca_ipv6_a,
  ca_ipv6_b, ca_flows, ca_runtime, ca_stats,
}

-- One round of the loop over the interfaces.
unfoldable pub is_attached : System → (program_id : ℕ) → Filters → Name → Bool
is_attached system program_id filters name = elim (system.index name) [
  | none ↦ false
  | some ifindex ↦ elim (query system.calls filters ifindex owned) [
    | absent ↦ false
    | failed ↦ false
    | program attached ↦ attached == program_id
  ]
]

unfoldable pub all_attached : System → (program_id : ℕ) → Filters → List Name → Bool
all_attached system program_id filters [] = true
all_attached system program_id filters (name ∷ names) =
    is_attached system program_id filters name && all_attached system program_id filters names

-- `ca_bpf_tc_verify_program_interfaces`, which fails without the list of the interfaces.
abbrev pub verify_listed :
    System → (program_id : ℕ) → List Name → Option (List (ℕ × Name)) → Filters → Bool
verify_listed system program_id names none filters = false
verify_listed system program_id names (some interfaces) filters =
    verify_interfaces system.calls program_id names interfaces filters

-- `true` is the return value 0.
unfoldable pub verify_health :
    System → (policy_generation classifier_generation : ℕ) → List Name → Bpf → Bool
verify_health system policy_generation classifier_generation names bpf =
    if not (object_available system bpf) then false else elim bpf.config [
      | none ↦ false
      | some config ↦ elim bpf.program [
        | none ↦ false
        | some id ↦
            if config.enabled == 0
              || (not (config.app_policy_generation == policy_generation)
                  || not (config.classifier_generation == classifier_generation))
            then false
            else if not (all_attached system id bpf.filters names)
            then false
            else verify_listed system id names system.interfaces bpf.filters
      ]
    ]

-- The keys that the iteration over a map delivers.
abbrev pub count_map_entries : {A : Type 0} → List A → ℕ
count_map_entries keys = length keys

abbrev pub is_listed : ℕ → List ℕ → Bool
is_listed id [] = false
is_listed id (value ∷ values) = value == id || is_listed id values

-- The subjects of the keys, each as its lookup gives it: the values that are collected.
unfoldable pub unique_subjects : List (Option ℕ) → (values : List ℕ) → List ℕ
unique_subjects [] values = values
unique_subjects (none ∷ rest) values = unique_subjects rest values
unique_subjects (some id ∷ rest) values =
    if not (is_listed id values) && ltb (length values) max_subjects
    then unique_subjects rest (values ++ (id ∷ []))
    else unique_subjects rest values

abbrev pub count_unique_subjects : List (Option ℕ) → ℕ
count_unique_subjects keys = length (unique_subjects keys [])

-- The maps of a slot, by their keys; for the subjects, what the lookup of each key gives.
pub record SlotKeys : Type 0 where
  pub subjects : List (Option ℕ)
  pub policies : List ℕ
  pub ports : List ℕ
  pub ipv4 : List ℕ
  pub ipv6 : List ℕ

-- What the status meets: the slots, the pending word, the counters of each CPU (`none` for a lookup
-- that fails), and whether the CPUs can be counted and an array for them can be had.
pub record StatusMaps : Type 0 where
  pub slot_a : SlotKeys
  pub slot_b : SlotKeys
  pub runtime : ℕ
  pub percpu : ℕ → Option (List ℕ)
  pub memory : Bool

abbrev pub sum64 : List ℕ → ℕ
sum64 [] = 0
sum64 (n ∷ rest) = u64 (n + sum64 rest)

-- `stats[id]`
abbrev pub stat_of : Option (List ℕ) → ℕ
stat_of none = 0
stat_of (some values) = sum64 values

-- The numbers that are printed; the counters are a function of the identifier.
pub record Status : Type 0 where
  pub schema : ℕ
  pub config : Config
  pub subject_entries : ℕ
  pub subject_count : ℕ
  pub policy_entries : ℕ
  pub port_hint_entries : ℕ
  pub ipv4_prefix_entries : ℕ
  pub ipv6_prefix_entries : ℕ
  pub runtime_projection_entries : ℕ
  pub flow_entries : ℕ
  pub flows_pending : ℕ
  pub flows_pending_peak : ℕ
  pub offload_excluded_subjects : ℕ
  pub stats : ℕ → ℕ

abbrev pub slot_maps : (active_slot : ℕ) → List MapName
slot_maps active_slot =
    if active_slot == 0
    then ca_subject_a ∷ ca_policy_a ∷ ca_port_a ∷ ca_ipv4_a ∷ ca_ipv6_a ∷ []
    else ca_subject_b ∷ ca_policy_b ∷ ca_port_b ∷ ca_ipv4_b ∷ ca_ipv6_b ∷ []

unfoldable pub read_status :
    StatusMaps → (schema : ℕ) → Config → List (FlowKey × FlowState) → Status
read_status maps schema config flows =
    let slot = if config.active_slot == 0 then maps.slot_a else maps.slot_b in
    let ports = count_map_entries slot.ports in
    let ipv4 = count_map_entries slot.ipv4 in
    let ipv6 = count_map_entries slot.ipv6 in
    record {
      schema = schema;
      config = config;
      subject_entries = count_map_entries slot.subjects;
      subject_count = count_unique_subjects slot.subjects;
      policy_entries = count_map_entries slot.policies;
      port_hint_entries = ports;
      ipv4_prefix_entries = ipv4;
      ipv6_prefix_entries = ipv6;
      runtime_projection_entries = ports + ipv4 + ipv6;
      flow_entries = count_map_entries flows;
      flows_pending = low32 maps.runtime;
      flows_pending_peak = high32 maps.runtime;
      offload_excluded_subjects =
          if config.enabled == 0 then 0 else count_unique_subjects slot.subjects;
      stats = λ id. stat_of (maps.percpu id);
    }

-- `none` is the return value 1.
unfoldable pub print_status : StatusMaps → Bpf → Option Status
print_status maps bpf = if not (bpf.maps ca_config) then none else elim bpf.config [
  | none ↦ none
  | some config ↦ if not (bpf.maps ca_mark_schema) then none else elim bpf.schema [
    | none ↦ none
    | some schema ↦
        if not (
          all_pinned bpf.maps (slot_maps config.active_slot)
          && all_pinned bpf.maps (ca_flows ∷ ca_runtime ∷ ca_stats ∷ []))
        then none
        else if not maps.memory
        then none
        else some (read_status maps schema config bpf.flows)
  ]
]
