-- ===== src/Datapath/Ingress/Invariant.antt =====
-- src/client-access-bpf.c, `ca_ingress`: the flow map never holds an undecided record between two
-- runs, and a verdict kept with a flow is that of the published policy or is marked as older.
use client_access.Prelude.{
  ℕ, ◌≡◌, Option, some, ◌==◌, arith, Option-cases, Bool-cases, ◌≤◌, Bool-cases, Bool-cases, inl,
  inr,
}
use client_access.Abi.{Config, FlowKey, FlowState, flow_pending}
use client_access.Datapath.State.{Kernel, State, Slot, SkBuff, Stats, active}
use client_access.Datapath.Flow.{
  Env, Terminal, try_terminal, emit, reevaluate, touched, reuse, load_shed, shed_flow,
}
use client_access.Datapath.Flow.Decision.{IsServable, try_terminal-Decided}
use client_access.Datapath.Ingress.{pending_flow, store_result, settle, open_flow}
use client_access.Datapath.Ingress.Coherent.{
  Coherent, CoherentBut, Coherent-CoherentBut, write-Coherent, insert-Coherent, replace-Coherent,
  delete-Coherent, insert-CoherentBut,
}

pub reevaluate-IsServable :
    (slot : Slot) (config : Config) (key : FlowKey) (flow : FlowState) (stats : Stats)
    → IsServable slot config key flow
    → IsServable slot config key (reevaluate slot config key.subject_id flow stats).0
unfolding reevaluate
reevaluate-IsServable slot config key flow stats h = ground arith

pub touched-IsServable :
    (slot : Slot) (config : Config) (key : FlowKey) (now : ℕ) (flow : FlowState)
    → IsServable slot config key flow
    → IsServable slot config key (touched now flow)
touched-IsServable slot config key now flow h = record { settled = h.settled; current = h.current }

shed_flow-IsServable :
    (slot : Slot) (config : Config) (key : FlowKey) (subject now : ℕ)
    → IsServable slot config key (shed_flow slot config subject now)
shed_flow-IsServable slot config key subject now = ground arith

-- The record that `ca_try_terminal` leaves may be served.
try_terminal-IsServable :
    (slot : Slot) (config : Config) (key : FlowKey) (flow : FlowState) (now : ℕ) (stats : Stats)
    → 1 ≤ flow.packets_examined
    → IsServable slot config key (try_terminal slot config flow key key.subject_id now stats).flow
try_terminal-IsServable slot config key flow now stats h =
    ground (arith, try_terminal-Decided slot config flow key now stats)

module _ {k : Kernel} (slot : Slot) (config : Config) where
  -- The published control record and its slot, which a run leaves alone.
  pub record Published (s : State k) : Type 0 where
    pub control : s.config ≡ some config
    pub snapshot : active s config ≡ slot

  pub record Inv (s : State k) : Type 0 where
    pub published : Published s
    pub coherent : Coherent k.flow_map slot config s.flows

  pub record InvBut (hole : FlowKey) (s : State k) : Type 0 where
    pub published : Published s
    pub coherent : CoherentBut k.flow_map slot config hole s.flows

  pub Inv-InvBut : (hole : FlowKey) (s : State k) → Inv s → InvBut hole s
  Inv-InvBut hole s i = record {
    published = i.published;
    coherent = Coherent-CoherentBut k.flow_map slot config hole s.flows i.coherent;
  }

  pub emit-Inv : (s : State k) (skb : SkBuff) (v : ℕ) → Inv s → Inv (emit s skb v).state
  unfolding emit active
  emit-Inv s skb v i = record {
    published = record { control = i.published.control; snapshot = i.published.snapshot };
    coherent = i.coherent;
  }

  pub with_stats : (s : State k) (stats : Stats) → Inv s → Inv (record s { stats = stats })
  unfolding active
  with_stats s stats i = record {
    published = record { control = i.published.control; snapshot = i.published.snapshot };
    coherent = i.coherent;
  }

  pub with_flows :
      (s : State k) (flows : k.flow_map.Map)
      → Published s
      → Coherent k.flow_map slot config flows
      → Inv (record s { flows = flows })
  unfolding active
  with_flows s flows p c = record {
    published = record { control = p.control; snapshot = p.snapshot };
    coherent = c;
  }

  -- A record that may be served is brought up to the policy and stored.
  pub store-Inv :
      (key : FlowKey) (seen old : FlowState) (stats : Stats) (s : State k)
      → InvBut key s
      → k.flow_map.lookup s.flows key ≡ some old
      → IsServable slot config key seen
      → let r = reevaluate slot config key.subject_id seen stats in
        Inv (record s { flows = k.flow_map.write s.flows key r.0; stats = r.1 })
  store-Inv key seen old stats s i there ok = with_stats _ _ (
      with_flows s _ i.published (
        write-Coherent k.flow_map slot config key s.flows _ old there
          (reevaluate-IsServable slot config key seen stats ok) i.coherent))

  reuse-Inv :
      (skb : SkBuff) (key : FlowKey) (now : ℕ) (existing : FlowState) (s : State k)
      → Inv s
      → k.flow_map.lookup s.flows key ≡ some existing
      → Inv (reuse skb config key key.subject_id now existing s).state
  unfolding reuse
  reuse-Inv skb key now existing s i there =
      elim (Bool-cases (existing.classification_state == flow_pending)) [
        | inl pending ↦ absurd ((i.coherent key existing there).settled (ground arith))
        | inr other ↦
            rw (other, i.published.snapshot)
              (emit-Inv _ _ _ (
                store-Inv key (touched now existing) existing s.stats s (Inv-InvBut key s i) there (
                  touched-IsServable slot config key now existing (i.coherent key existing there))))
      ]

  pub load_shed-Inv :
      (skb : SkBuff) (key : FlowKey) (now : ℕ) (s : State k)
      → Inv s
      → Inv (load_shed skb config key key.subject_id now s).state
  unfolding load_shed
  load_shed-Inv skb key now s i =
      let terminal = shed_flow (active s config) config key.subject_id now in
      elim (Option-cases (k.flow_map.insert s.flows key terminal)) [
        | inr (flows, stored) ↦
            rw (stored, load_shed)
              (emit-Inv _ _ _ (
                with_stats _ _ (
                  with_flows s flows i.published (
                    insert-Coherent k.flow_map slot config key s.flows flows terminal stored
                      (rw i.published.snapshot
                        (shed_flow-IsServable slot config key key.subject_id now))
                      (Inv-InvBut key s i).coherent))))
        | inl refused ↦ elim (Option-cases (k.flow_map.lookup s.flows key)) [
          | inr (existing, there) ↦
              rw (refused, load_shed, there)
                (reuse-Inv skb key now existing _ (with_stats s _ i) there)
          | inl full ↦ rw (refused, load_shed, full) (emit-Inv _ _ _ (with_stats s _ i))
        ]
      ]

  pub with_runtime :
      (s : State k) (runtime : Option ℕ) → Inv s → Inv (record s { runtime = runtime })
  unfolding active
  with_runtime s runtime i = record {
    published = record { control = i.published.control; snapshot = i.published.snapshot };
    coherent = i.coherent;
  }

  store_result-Inv :
      (env : Env) (skb : SkBuff) (key : FlowKey) (r : Terminal) (s : State k)
      → IsServable slot config key r.flow
      → InvBut key s
      → Inv (store_result env skb config key key.subject_id r s).state
  unfolding store_result
  store_result-Inv env skb key r s ok i =
      elim (Option-cases (k.flow_map.replace s.flows key r.flow)) [
        | inl refused ↦
            rw (refused, store_result)
              (load_shed-Inv skb key env.now _ (
                with_runtime _ _ (
                  with_flows s _ i.published
                    (delete-Coherent k.flow_map slot config key s.flows i.coherent))))
        | inr (flows, stored) ↦
            let next = with_flows s flows i.published (
              replace-Coherent k.flow_map slot config key s.flows flows r.flow stored ok
                i.coherent) in
            rw (stored, store_result)
              (elim (Bool-cases r.terminal) [
                | inl done ↦ rw done (emit-Inv _ _ _ (with_stats _ _ (with_runtime _ _ next)))
                | inr more ↦ rw more (emit-Inv _ _ _ next)
              ])
      ]

  settle-Inv :
      (env : Env) (skb : SkBuff) (key : FlowKey) (examined : ℕ) (s : State k)
      → InvBut key s
      → Inv (settle env skb config key key.subject_id examined s).state
  unfolding settle active
  settle-Inv env skb key examined s i =
      store_result-Inv env skb key _ _
        (rw i.published.snapshot (
          try_terminal-IsServable slot config key (pending_flow config env.now examined) env.now
            s.stats (omega arith)))
        (record {
          published = record { control = i.published.control; snapshot = i.published.snapshot };
          coherent = i.coherent;
        })

  pub open_flow-Inv :
      (env : Env) (skb : SkBuff) (key : FlowKey) (examined : ℕ) (s : State k)
      → Inv s
      → Inv (open_flow env skb config key key.subject_id examined s).state
  unfolding open_flow active
  open_flow-Inv env skb key examined s i =
      elim (Option-cases (k.flow_map.insert s.flows key (pending_flow config env.now examined))) [
        | inl refused ↦
            rw (refused, open_flow) (load_shed-Inv skb key env.now _ (with_runtime s _ i))
        | inr (flows, stored) ↦
            rw (stored, open_flow)
              (settle-Inv env skb key examined _ (record {
                published = record {
                  control = i.published.control;
                  snapshot = i.published.snapshot;
                };
                coherent =
                    insert-CoherentBut k.flow_map slot config key s.flows flows _ stored
                      (Inv-InvBut key s i).coherent;
              }))
      ]
