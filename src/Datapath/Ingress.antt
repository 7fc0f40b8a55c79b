-- ===== src/Datapath/Ingress.antt =====
-- src/client-access-bpf.c, `ca_ingress`: one run of the TC program on one packet.
-- The flow map is the CPU's own for the run; the other CPUs act on the three atomic words.
pub mod Mark
pub mod Coherent
pub mod Invariant
pub mod Preserves
pub mod Accounting
pub mod Spec
pub mod Deny
pub mod Refinement
pub mod Coherence
use client_access.Prelude.{ℕ, Bool, true, false, not, Option, none, some, List, ◌==◌, if◌then◌else◌}
use client_access.Abi.{
  Config, FlowKey, FlowState, class_unclassified, flow_pending, flow_unclassified_final, kind_none,
  verdict_allow,
}
use client_access.Datapath.Parse.{parse_ok, parse_no_ethernet, Parsed, parse_flow}
use client_access.Datapath.State.{
  Kernel, State, SkBuff, Done, tc_act_unspec, active, Stats, stat_inc, stat_add, stat_packets,
  stat_flows_total, stat_flow_map_full, stat_unknown_subject_packets, stat_flows_pending,
  stat_classification_packets, stat_classification_bytes, stat_parse_unsupported,
}
use client_access.Datapath.Verdict.{policy_verdict, clear_app_mark}
use client_access.Datapath.Rate.{pending_reserve, pending_release}
use client_access.Datapath.Flow.{
  Env, Terminal, record_terminal, try_terminal, reevaluate, touched, emit, count,
  admit_classification, load_shed,
}

-- `if (!config->app_enforcement_enabled)`
abbrev pub enforcing : Config → Bool
enforcing config = not (config.app_enforcement_enabled == 0)

-- The record of the correlation-only mode.
abbrev pub correlation_flow : Config → (now : ℕ) → FlowState
correlation_flow config now = record {
  first_seen_ns = now;
  last_seen_ns = now;
  app_policy_generation = config.app_policy_generation;
  classifier_generation = config.classifier_generation;
  packets_examined = 0;
  bytes_examined = 0;
  class_id = class_unclassified;
  classification_state = flow_unclassified_final;
  app_verdict = verdict_allow;
  class_kind = kind_none;
}

-- The record of a flow that the classifier has admitted.
abbrev pub pending_flow : Config → (now examined : ℕ) → FlowState
pending_flow config now examined = record {
  first_seen_ns = now;
  last_seen_ns = now;
  app_policy_generation = config.app_policy_generation;
  classifier_generation = config.classifier_generation;
  packets_examined = 1;
  bytes_examined = examined;
  class_id = class_unclassified;
  classification_state = flow_pending;
  app_verdict = config.provisional_app_verdict;
  class_kind = kind_none;
}

-- The four counters of an admitted flow.
abbrev pub opened_stats : (examined : ℕ) → Stats → Stats
opened_stats examined stats = stat_add stat_classification_bytes examined (
    stat_inc stat_classification_packets
      (stat_inc stat_flows_pending (stat_inc stat_flows_total stats)))

module _ {k : Kernel} where
  -- `return TC_ACT_UNSPEC`
  abbrev pub pass : State k → SkBuff → Done k
  pass s skb = record { state = s; skb = skb; action = tc_act_unspec }

  unfoldable pub correlate : SkBuff → Config → FlowKey → (now : ℕ) → State k → Done k
  correlate skb config key now s =
      elim (k.flow_map.insert s.flows key (correlation_flow config now)) [
        | some flows ↦ pass (count stat_flows_total (record s { flows = flows })) skb
        | none ↦ elim (k.flow_map.lookup s.flows key) [
          | none ↦ pass (count stat_flow_map_full s) skb
          | some _ ↦ pass s skb
        ]
      ]

  -- The second write of the record, and the end of the run.
  unfoldable pub store_result :
      Env → SkBuff → Config → FlowKey → (subject : ℕ) → Terminal → State k → Done k
  store_result env skb config key subject result s =
      elim (k.flow_map.replace s.flows key result.flow) [
        | none ↦ load_shed skb config key subject env.now (record s {
          runtime = pending_release s.runtime;
          flows = k.flow_map.delete s.flows key;
        })
        | some flows ↦
            if result.terminal
            then emit
                (record s {
                  flows = flows;
                  runtime = pending_release s.runtime;
                  stats =
                      record_terminal result.flow
                        (result.flow.classification_state == flow_unclassified_final) s.stats;
                })
                skb config.provisional_app_verdict
            else emit (record s { flows = flows }) skb config.provisional_app_verdict
      ]

  -- From `ca_try_terminal` to the end, once the pending record is in the map.
  unfoldable pub settle :
      Env → SkBuff → Config → FlowKey → (subject examined : ℕ) → State k → Done k
  settle env skb config key subject examined s =
      let result =
        try_terminal (active s config) config (pending_flow config env.now examined) key subject
          env.now s.stats in
      store_result env skb config key subject result (record s { stats = result.stats })

  -- The pending slot is taken: the record goes into the map.
  unfoldable pub open_flow :
      Env → SkBuff → Config → FlowKey → (subject examined : ℕ) → State k → Done k
  open_flow env skb config key subject examined s =
      elim (k.flow_map.insert s.flows key (pending_flow config env.now examined)) [
        | none ↦
            load_shed skb config key subject env.now
              (record s { runtime = pending_release s.runtime })
        | some flows ↦
            settle env skb config key subject examined
              (record s { flows = flows; stats = opened_stats examined s.stats })
      ]

  -- No record of the flow is in the map.
  unfoldable pub new_flow :
      Env → SkBuff → Config → FlowKey → (subject examined : ℕ) → State k → Done k
  new_flow env skb config key subject examined s =
      if not (enforcing config)
      then correlate skb config key env.now s
      else let (admitted, s₁) = admit_classification env config subject s in
        if not admitted
        then load_shed skb config key subject env.now s₁
        else let (reserved, runtime) =
            pending_reserve env.pending_others s₁.runtime config.max_pending_entries in
          let s₂ = record s₁ { runtime = runtime } in
          if not reserved
          then load_shed skb config key subject env.now s₂
          else open_flow env skb config key subject examined s₂

  -- The verdict kept with a classified flow, brought up to the published policy.
  unfoldable pub serve_cached :
      SkBuff → Config → FlowKey → (subject : ℕ) → FlowState → State k → Done k
  serve_cached skb config key subject seen s =
      let (current, stats) = reevaluate (active s config) config subject seen s.stats in
      emit (record s { flows = k.flow_map.write s.flows key current; stats = stats }) skb
        current.app_verdict

  -- A record of the flow is in the map.
  unfoldable pub known_flow :
      Env → SkBuff → Config → FlowKey → (subject examined : ℕ) → FlowState → State k → Done k
  known_flow env skb config key subject examined flow s =
      let seen = touched env.now flow in
      let s₁ = record s { flows = k.flow_map.write s.flows key seen } in
      if not (enforcing config)
      then pass s₁ skb
      else if flow.classification_state == flow_pending
      then emit s₁ skb config.provisional_app_verdict
      else if not (flow.class_kind == kind_none)
      then serve_cached skb config key subject seen s₁
      else new_flow env skb config key subject examined
          (record s₁ { flows = k.flow_map.delete s₁.flows key })

  unfoldable pub track_flow :
      Env → SkBuff → Config → FlowKey → (subject examined : ℕ) → State k → Done k
  track_flow env skb config key subject examined s = elim (k.flow_map.lookup s.flows key) [
    | some flow ↦ known_flow env skb config key subject examined flow s
    | none ↦ new_flow env skb config key subject examined s
  ]

  -- `config->app_enforcement_enabled ? ca_emit_app_verdict(skb, verdict) : TC_ACT_UNSPEC`
  unfoldable pub emit_if_enforcing : SkBuff → Config → (verdict : ℕ) → State k → Done k
  emit_if_enforcing skb config verdict s =
      if enforcing config then emit s skb verdict else pass s skb

  -- From the parser's result on, with the subject found.
  unfoldable pub known_subject : Env → SkBuff → Config → Parsed → (subject : ℕ) → State k → Done k
  known_subject env skb config parsed subject s = elim parsed.result [
    | parse_ok ↦
        track_flow env skb config (record parsed.key { subject_id = subject }) subject
          parsed.examined s
    | _ ↦
        emit_if_enforcing skb config (policy_verdict (active s config) subject class_unclassified)
          (count stat_parse_unsupported s)
  ]

  unfoldable pub by_subject : Env → SkBuff → Config → State k → Parsed → Done k
  by_subject env skb config s parsed = elim ((active s config).subject parsed.mac) [
    | some subject ↦ known_subject env skb config parsed subject s
    | none ↦
        emit_if_enforcing skb config config.unknown_subject_app_verdict
          (count stat_unknown_subject_packets s)
  ]

  unfoldable pub after_parse : Env → SkBuff → Config → State k → Parsed → Done k
  after_parse env skb config s parsed = elim parsed.result [
    | parse_no_ethernet ↦ pass s skb
    | _ ↦ by_subject env skb config s parsed
  ]

  -- With the copy of the control record taken; `none` if the map has none.
  unfoldable pub ingress_configured : Env → SkBuff → Option Config → State k → Option (Done k)
  ingress_configured env skb none s = some (pass s skb)
  ingress_configured env skb (some config) s =
      if config.enabled == 0 then some (pass s skb) else elim (parse_flow skb.bytes skb.len) [
        | none ↦ none
        | some parsed ↦ some (after_parse env skb config (count stat_packets s) parsed)
      ]

  -- `ca_ingress(skb)`; `none` is a read outside of the packet
  unfoldable pub ingress : Env → SkBuff → State k → Option (Done k)
  ingress env skb s =
      ingress_configured env (record skb { mark = clear_app_mark skb.mark }) s.config s
