-- ===== src/Datapath/Ingress/Deny.antt =====
-- src/client-access-bpf.c, `ca_ingress`: the deny bit that each function of a run leaves.
use client_access.Prelude.{
  if◌then◌else◌, ℕ, ◌≡◌, ◌≢◌, true, Option, none, some, Option-cases, inl, inr, arith,
}
use client_access.Abi.{Config, FlowKey, FlowState, kind_none, class_unclassified}
use client_access.Datapath.State.{Kernel, State, Slot, SkBuff, Stats, active}
use client_access.Datapath.Verdict.{policy_verdict}
use client_access.Datapath.Verdict.Mark.{deny_bit, denies, cleared, emit_app_verdict-Stamped}
use client_access.Datapath.Rate.{pending_reserve}
use client_access.Datapath.Flow.Admission.{KeepsCore, admit_classification-KeepsCore}
use client_access.Datapath.Flow.{
  admit_classification, Env, try_terminal, emit, load_shed, touched, Terminal, reevaluate,
}
use client_access.Datapath.Flow.Decision.{IsServable}
use client_access.Datapath.Classify.{classify}
use client_access.Datapath.Ingress.{
  opened_stats, pending_flow, store_result, settle, open_flow, new_flow, serve_cached, known_flow,
  enforcing,
}
use client_access.Datapath.Ingress.Spec.{no_stats, stores, opens, due_new, due_flow}

-- What is decided of a flow does not depend on the counters.
try_terminal-stats :
    (slot : Slot) (config : Config) (flow : FlowState) (key : FlowKey) (subject now : ℕ)
    (a b : Stats)
    → (try_terminal slot config flow key subject now a).flow
      ≡ (try_terminal slot config flow key subject now b).flow
unfolding try_terminal classify
try_terminal-stats slot config flow key subject now a b = ground arith

module _ {k : Kernel} (skb : SkBuff) where
  pub emit-deny : (s : State k) (v : ℕ) → deny_bit (emit s (cleared skb) v).skb ≡ denies v
  unfolding emit
  emit-deny s v = (emit_app_verdict-Stamped skb v s.stats).deny

  -- A packet of a flow that is not in the map is shed with the verdict of unclassified traffic.
  load_shed-deny :
      (config : Config) (key : FlowKey) (subject now : ℕ) (s : State k)
      → k.flow_map.lookup s.flows key ≡ none
      → deny_bit (load_shed (cleared skb) config key subject now s).skb
        ≡ denies (policy_verdict (active s config) subject class_unclassified)
  unfolding load_shed
  load_shed-deny config key subject now s absent = grind (arith, emit-deny)

  store_result-deny :
      (env : Env) (config : Config) (key : FlowKey) (subject : ℕ) (r : Terminal) (s : State k)
      → deny_bit (store_result env (cleared skb) config key subject r s).skb
        ≡ denies (elim (k.flow_map.replace s.flows key r.flow) [
          | none ↦ policy_verdict (active s config) subject class_unclassified
          | some _ ↦ config.provisional_app_verdict
        ])
  unfolding store_result active
  store_result-deny env config key subject r s =
      grind (arith, emit-deny, load_shed-deny, k.flow_map.lookup-delete_self)

  open_flow-deny :
      (env : Env) (config : Config) (key : FlowKey) (subject examined : ℕ) (s : State k)
      → k.flow_map.lookup s.flows key ≡ none
      → deny_bit (open_flow env (cleared skb) config key subject examined s).skb
        ≡ denies (
            if stores env config key subject examined s
            then config.provisional_app_verdict
            else policy_verdict (active s config) subject class_unclassified)
  unfolding open_flow settle stores active
  open_flow-deny env config key subject examined s absent =
      let flow = pending_flow config env.now examined in
      elim (Option-cases (k.flow_map.insert s.flows key flow)) [
        | inl refused ↦
            rw (refused, open_flow, stores) (load_shed-deny config key subject env.now _ absent)
        | inr (flows, stored) ↦
            rw (stored, open_flow, stores)
              (ground (
                arith,
                store_result-deny env config key subject
                    (try_terminal (active s config) config flow key subject env.now
                      (opened_stats examined s.stats))
                    (record s {
                      flows = flows;
                      stats =
                          (try_terminal (active s config) config flow key subject env.now
                            (opened_stats examined s.stats)).stats;
                    }),
                try_terminal-stats (active s config) config flow key subject env.now
                    (opened_stats examined s.stats) no_stats,
              ))
      ]

  -- The rate words and the pending count do not bear on what the map takes, nor on the slot.
  stores-KeepsCore :
      (env : Env) (config : Config) (key : FlowKey) (subject examined : ℕ) (s t : State k)
      (runtime : Option ℕ)
      → KeepsCore s t
      → (stores env config key subject examined (record t { runtime = runtime })
          ≡ stores env config key subject examined s)
        × (active t config ≡ active s config)
        × (active (record t { runtime = runtime }) config ≡ active s config)
  unfolding stores active
  stores-KeepsCore env config key subject examined s t runtime c =
      (rw (c.slot_a, c.slot_b, c.flows), rw (c.slot_a, c.slot_b), rw (c.slot_a, c.slot_b))

  pub new_flow-deny :
      (env : Env) (config : Config) (key : FlowKey) (subject examined : ℕ) (s : State k)
      → enforcing config ≡ true
      → k.flow_map.lookup s.flows key ≡ none
      → deny_bit (new_flow env (cleared skb) config key subject examined s).skb
        ≡ denies (due_new env config key subject examined s)
  unfolding new_flow due_new opens
  new_flow-deny env config key subject examined s on absent =
      let a = admit_classification env config subject s in
      let p = pending_reserve env.pending_others s.runtime config.max_pending_entries in
      let kept = admit_classification-KeepsCore env config subject s in
      let absent' : k.flow_map.lookup a.1.flows key ≡ none = rw kept.flows absent in
      let same = stores-KeepsCore env config key subject examined s a.1 p.1 kept in
      rw (on, kept.runtime)
        (ground (
          arith,
          load_shed-deny config key subject env.now a.1 absent',
          load_shed-deny config key subject env.now (record a.1 { runtime = p.1 }) absent',
          open_flow-deny env config key subject examined (record a.1 { runtime = p.1 }) absent',
        ))

  serve_cached-deny :
      (config : Config) (key : FlowKey) (seen : FlowState) (s : State k)
      → IsServable (active s config) config key seen
      → seen.class_kind ≢ kind_none
      → deny_bit (serve_cached (cleared skb) config key key.subject_id seen s).skb
        ≡ denies (policy_verdict (active s config) key.subject_id seen.class_id)
  unfolding serve_cached reevaluate
  serve_cached-deny config key seen s ok classified = grind (arith, emit-deny)

  pub known_flow-deny :
      (env : Env) (config : Config) (key : FlowKey) (examined : ℕ) (flow : FlowState) (s : State k)
      → enforcing config ≡ true
      → k.flow_map.lookup s.flows key ≡ some flow
      → flow.class_kind ≢ kind_none
      → IsServable (active s config) config key flow
      → deny_bit (known_flow env (cleared skb) config key key.subject_id examined flow s).skb
        ≡ denies (due_flow env config key key.subject_id examined s)
  unfolding known_flow due_flow active
  known_flow-deny env config key examined flow s on there classed ok =
      let seen = touched env.now flow in
      let next = record s { flows = k.flow_map.write s.flows key seen } in
      rw (on, there, due_flow)
        (ground (
          arith,
          serve_cached-deny config key seen next
              (record { settled = ok.settled; current = ok.current }) classed,
        ))
