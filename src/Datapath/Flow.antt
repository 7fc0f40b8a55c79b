-- ===== src/Datapath/Flow.antt =====
-- src/client-access-bpf.c: admission, the life of a flow record, and load shedding.
pub mod Admission
pub mod Decision
use client_access.Prelude.{
  ℕ, ◌*◌, Bool, true, false, not, ◌||◌, ◌&&◌, Option, none, some, List, leb, ◌==◌, if◌then◌else◌,
}
use client_access.Prelude.Word.{sub64}
use client_access.Abi.{
  Config, FlowKey, FlowState, class_unclassified, flow_pending, flow_classified,
  flow_unclassified_final, kind_none, kind_exact, verdict_deny,
}
use client_access.Datapath.State.{
  Kernel, State, Slot, SkBuff, Stats, Done, tc_act_unspec, active, stat_inc, stat_flows_total,
  stat_flows_unclassified, stat_flow_app_allow_verdicts, stat_flow_app_deny_verdicts,
  stat_flow_map_full, stat_policy_reevaluations, stat_flows_classified_exact,
  stat_flows_classified_category, stat_flows_unclassified_budget, stat_flows_unclassified_load_shed,
  stat_classification_admission_denied,
}
use client_access.Datapath.Verdict.{policy_verdict, emit_app_verdict}
use client_access.Datapath.Classify.{classify}
use client_access.Datapath.Rate.{rate_take}

-- What a run meets from outside: the clock, and the other CPUs at its three atomic words.
pub record Env : Type 0 where
  pub now : ℕ
  pub global_others : List (ℕ → ℕ)
  pub subject_others : List (ℕ → ℕ)
  pub pending_others : List (ℕ → ℕ)

unfoldable pub record_terminal : FlowState → Bool → Stats → Stats
record_terminal flow budget stats =
    let counted =
      if flow.classification_state == flow_classified
      then (if flow.class_kind == kind_exact
          then stat_inc stat_flows_classified_exact stats
          else stat_inc stat_flows_classified_category stats)
      else if budget
      then stat_inc stat_flows_unclassified_budget (stat_inc stat_flows_unclassified stats)
      else stat_inc stat_flows_unclassified stats in
    if flow.app_verdict == verdict_deny
    then stat_inc stat_flow_app_deny_verdicts counted
    else stat_inc stat_flow_app_allow_verdicts counted

unfoldable pub budget_exhausted : Config → FlowState → ℕ → Bool
budget_exhausted config flow now =
    not (config.max_packets_inspected == 1)
    || (leb config.max_packets_inspected flow.packets_examined
        || (leb config.max_bytes_examined flow.bytes_examined
            || leb (config.max_classification_age_ms * 1_000_000) (sub64 now flow.first_seen_ns)))

-- Whether the flow is terminal, and the record and the counters that the call leaves.
pub record Terminal : Type 0 where
  pub terminal : Bool
  pub flow : FlowState
  pub stats : Stats

abbrev pub judged : Slot → Config → ℕ → FlowState → FlowState
judged slot config subject flow = record flow {
  app_verdict = policy_verdict slot subject flow.class_id;
  app_policy_generation = config.app_policy_generation;
}

unfoldable pub try_terminal :
    Slot → Config → FlowState → FlowKey → (subject now : ℕ) → Stats → Terminal
try_terminal slot config flow key subject now stats =
    let (class, counted) = classify slot key stats in
    let classed = record flow { class_id = class.class_id; class_kind = class.class_kind } in
    if not (class.class_kind == kind_none)
    then record {
      terminal = true;
      flow = judged slot config subject (record classed { classification_state = flow_classified });
      stats = counted;
    }
    else if budget_exhausted config classed now
    then record {
      terminal = true;
      flow = judged slot config subject (record classed {
        class_id = class_unclassified;
        classification_state = flow_unclassified_final;
      });
      stats = counted;
    }
    else record { terminal = false; flow = classed; stats = counted }

-- `existing->app_verdict` and the generation beside it, brought up to the published policy
unfoldable pub reevaluate : Slot → Config → ℕ → FlowState → Stats → FlowState × Stats
reevaluate slot config subject flow stats =
    if flow.app_policy_generation == config.app_policy_generation
    then (flow, stats)
    else (judged slot config subject flow, stat_inc stat_policy_reevaluations stats)

abbrev pub touched : ℕ → FlowState → FlowState
touched now flow = record flow { last_seen_ns = now }

abbrev pub shed_flow : Slot → Config → (subject now : ℕ) → FlowState
shed_flow slot config subject now = record {
  first_seen_ns = now;
  last_seen_ns = now;
  app_policy_generation = config.app_policy_generation;
  classifier_generation = config.classifier_generation;
  packets_examined = 0;
  bytes_examined = 0;
  class_id = class_unclassified;
  classification_state = flow_unclassified_final;
  app_verdict = policy_verdict slot subject class_unclassified;
  class_kind = kind_none;
}

-- The subject's rate word, created if it is missing; the map is as the calls left it.
unfoldable pub subject_rate : (k : Kernel) → k.rate_map.Map → ℕ → Option ℕ × k.rate_map.Map
subject_rate k rates subject = elim (k.rate_map.lookup rates subject) [
  | some word ↦ (some word, rates)
  | none ↦ elim (k.rate_map.insert rates subject 0) [
    | none ↦ (k.rate_map.lookup rates subject, rates)
    | some created ↦ (k.rate_map.lookup created subject, created)
  ]
]

module _ {k : Kernel} where
  -- `return ca_emit_app_verdict(skb, verdict)` in a given state
  unfoldable pub emit : State k → SkBuff → ℕ → Done k
  emit s skb verdict =
      let (marked, stats) = emit_app_verdict skb verdict s.stats in
      record { state = record s { stats = stats }; skb = marked; action = tc_act_unspec }

  abbrev pub count : ℕ → State k → State k
  count id s = record s { stats = stat_inc id s.stats }

  unfoldable pub admit_subject : Env → Config → ℕ → State k → Bool × State k
  admit_subject env config subject s =
      let (found, rates) = subject_rate k s.subject_rates subject in
      elim found [
        | none ↦ (false, record s { subject_rates = rates })
        | some word ↦
            let (taken, stored) =
              rate_take env.subject_others word env.now
                config.per_subject_new_classification_rate in
            (taken, record s { subject_rates = k.rate_map.write rates subject stored })
      ]

  unfoldable pub admit_classification : Env → Config → ℕ → State k → Bool × State k
  admit_classification env config subject s = elim s.global_rate [
    | none ↦ (false, s)
    | some word ↦
        let (taken, stored) =
          rate_take env.global_others word env.now config.max_new_classifications_per_second in
        let s' = record s { global_rate = some stored } in
        if taken then admit_subject env config subject s' else (false, s')
  ]

  -- The branch of `ca_load_shed` where the flow is already there.
  unfoldable pub reuse :
      SkBuff → Config → FlowKey → (subject now : ℕ) → FlowState → State k → Done k
  reuse skb config key subject now existing s =
      let seen = touched now existing in
      if existing.classification_state == flow_pending
      then emit (record s { flows = k.flow_map.write s.flows key seen }) skb
          config.provisional_app_verdict
      else let (current, stats) = reevaluate (active s config) config subject seen s.stats in
        emit (record s { flows = k.flow_map.write s.flows key current; stats = stats }) skb
          current.app_verdict

  unfoldable pub load_shed : SkBuff → Config → FlowKey → (subject now : ℕ) → State k → Done k
  load_shed skb config key subject now s =
      let terminal = shed_flow (active s config) config subject now in
      let s' = count stat_classification_admission_denied s in
      elim (k.flow_map.insert s'.flows key terminal) [
        | some flows ↦
            let total =
              count stat_flows_unclassified_load_shed
                (count stat_flows_total (record s' { flows = flows })) in
            emit (record total { stats = record_terminal terminal false total.stats }) skb
              terminal.app_verdict
        | none ↦ elim (k.flow_map.lookup s'.flows key) [
          | some existing ↦ reuse skb config key subject now existing s'
          | none ↦ emit (count stat_flow_map_full s') skb terminal.app_verdict
        ]
      ]
