-- ===== src/Datapath/Ingress/Spec.antt =====
-- What `ca_ingress` of src/client-access-bpf.c promises of a packet under enforcement: the verdict
-- that is due, told with no cached verdict, no generation and no counter. The specification is for
-- packets whose flow, if it is in the map, has a class (`IsClassed`).
use client_access.Prelude.{ℕ, ◌≡◌, ◌≢◌, Bool, true, false, ◌&&◌, none, some, if◌then◌else◌}
use client_access.Abi.{Config, FlowKey, FlowState, class_unclassified, kind_none}
use client_access.Datapath.Parse.{Parsed, parse_ok}
use client_access.Datapath.State.{Kernel, State, Stats, active}
use client_access.Datapath.Verdict.{policy_verdict}
use client_access.Datapath.Rate.{pending_reserve}
use client_access.Datapath.Flow.{Env, try_terminal, admit_classification}
use client_access.Datapath.Ingress.{pending_flow}

abbrev pub no_stats : Stats
no_stats _ = 0

module _ {k : Kernel} (env : Env) (config : Config) where
  -- The map takes the pending record, and then the decided one in its place.
  unfoldable pub stores : FlowKey → (subject examined : ℕ) → State k → Bool
  stores key subject examined s =
      let flow = pending_flow config env.now examined in
      elim (k.flow_map.insert s.flows key flow) [
        | none ↦ false
        | some flows ↦
            let r = try_terminal (active s config) config flow key subject env.now no_stats in
            elim (k.flow_map.replace flows key r.flow) [ none ↦ false | some _ ↦ true ]
      ]

  -- The flow is within the rate limits and the limit on pending flows, and the map takes it.
  unfoldable pub opens : FlowKey → (subject examined : ℕ) → State k → Bool
  opens key subject examined s =
      let p = pending_reserve env.pending_others s.runtime config.max_pending_entries in
      (admit_classification env config subject s).0 && (p.0 && stores key subject examined s)

  -- A flow that opens is served the provisional verdict, any other that of unclassified traffic.
  unfoldable pub due_new : FlowKey → (subject examined : ℕ) → State k → ℕ
  due_new key subject examined s =
      if opens key subject examined s
      then config.provisional_app_verdict
      else policy_verdict (active s config) subject class_unclassified

  -- A flow of the map is served the published policy on its class, any other is new.
  unfoldable pub due_flow : FlowKey → (subject examined : ℕ) → State k → ℕ
  due_flow key subject examined s = elim (k.flow_map.lookup s.flows key) [
    | none ↦ due_new key subject examined s
    | some flow ↦ policy_verdict (active s config) subject flow.class_id
  ]

  unfoldable pub due : State k → Parsed → ℕ
  due s parsed = elim ((active s config).subject parsed.mac) [
    | none ↦ config.unknown_subject_app_verdict
    | some subject ↦ elim parsed.result [
      | parse_ok ↦ due_flow (record parsed.key { subject_id = subject }) subject parsed.examined s
      | _ ↦ policy_verdict (active s config) subject class_unclassified
    ]
  ]

  -- The record of the packet's flow has a class, if there is one.
  abbrev pub IsClassed : State k → Parsed → Type 0
  IsClassed s parsed =
      (subject : ℕ) (flow : FlowState)
      → (active s config).subject parsed.mac ≡ some subject
      → k.flow_map.lookup s.flows (record parsed.key { subject_id = subject }) ≡ some flow
      → flow.class_kind ≢ kind_none
