-- ===== src/Datapath/Ingress/Refinement.antt =====
-- src/client-access-bpf.c, `ca_ingress`: the program, with its cached verdicts and generations,
-- refines the specification of `Spec`.
use client_access.Prelude.{
  ap, sym, ◌<◌, ℕ, ◌≡◌, refl, ◌≢◌, ◌≤◌, ◌∙◌, true, Option, some, Option-cases, inl, inr, arith,
  length,
}
use client_access.Datapath.Verdict.{policy_verdict}
use client_access.Abi.{class_unclassified, Config, FlowKey, FlowState, kind_none}
use mathlib.Core.Option
use mathlib.Core.Path.{subst}
use client_access.Datapath.Parse.{parse_ok, parse_no_ethernet, Parsed, parse_flow}
use client_access.Datapath.State.{
  Kernel, State, SkBuff, Done, Stats, active, stat_parse_unsupported, stat_packets,
}
use client_access.Datapath.Verdict.Mark.{deny_bit, denies, cleared}
use client_access.Datapath.Flow.{Env, count}
use client_access.Datapath.Flow.Admission.{admit_classification-stats}
use client_access.Datapath.Ingress.{
  track_flow, known_subject, by_subject, after_parse, ingress_configured, ingress, enforcing,
  emit_if_enforcing,
}
use client_access.Datapath.Ingress.Coherent.{Coherent}
use client_access.Datapath.Parse.Safety.{parse_flow_in_bounds}
use client_access.Datapath.Ingress.Coherence.{IsCoherent}
use client_access.Datapath.Ingress.Spec.{stores, opens, due_new, due_flow, due, IsClassed}
use client_access.Datapath.Ingress.Deny.{emit-deny, new_flow-deny, known_flow-deny}

module _ {k : Kernel} (env : Env) (config : Config) where
  stores-stats :
      (key : FlowKey) (subject examined : ℕ) (s : State k) (stats : Stats)
      → stores env config key subject examined (record s { stats = stats })
        ≡ stores env config key subject examined s
  unfolding stores active
  stores-stats key subject examined s stats = refl

  due_new-stats :
      (key : FlowKey) (subject examined : ℕ) (s : State k) (stats : Stats)
      → due_new env config key subject examined (record s { stats = stats })
        ≡ due_new env config key subject examined s
  unfolding due_new opens active
  due_new-stats key subject examined s stats = ground (
    arith,
    stores-stats key subject examined s stats,
    admit_classification-stats env config subject s stats,
  )

  due_flow-stats :
      (key : FlowKey) (subject examined : ℕ) (s : State k) (stats : Stats)
      → due_flow env config key subject examined (record s { stats = stats })
        ≡ due_flow env config key subject examined s
  unfolding due_flow active
  due_flow-stats key subject examined s stats =
      elim (Option-cases (k.flow_map.lookup s.flows key)) [
        | inl absent ↦ rw (absent, due_flow) (due_new-stats key subject examined s stats)
        | inr (flow, there) ↦ rw (there, due_flow) refl
      ]

  due-stats :
      (parsed : Parsed) (s : State k) (stats : Stats)
      → due env config (record s { stats = stats }) parsed ≡ due env config s parsed
  unfolding due active
  due-stats parsed s stats = grind (arith, due_flow-stats)

  module _ (skb : SkBuff) (s : State k) (on : enforcing config ≡ true)
      (coherent : Coherent k.flow_map (active s config) config s.flows) where
    track_flow-deny :
        (key : FlowKey) (examined : ℕ)
        → ((flow : FlowState)
            → k.flow_map.lookup s.flows key ≡ some flow
            → flow.class_kind ≢ kind_none)
        → deny_bit (track_flow env (cleared skb) config key key.subject_id examined s).skb
          ≡ denies (due_flow env config key key.subject_id examined s)
    unfolding track_flow due_flow
    track_flow-deny key examined classed = elim (Option-cases (k.flow_map.lookup s.flows key)) [
      | inl absent ↦
          rw (absent, track_flow, due_flow)
            (new_flow-deny skb env config key key.subject_id examined s on absent)
      | inr (flow, there) ↦
          rw (there, track_flow)
            (known_flow-deny skb env config key examined flow s on there (classed flow there)
              (coherent key flow there))
    ]

    known_subject-deny :
        (parsed : Parsed) (subject : ℕ)
        → ((flow : FlowState)
            → k.flow_map.lookup s.flows (record parsed.key { subject_id = subject }) ≡ some flow
            → flow.class_kind ≢ kind_none)
        → deny_bit (known_subject env (cleared skb) config parsed subject s).skb
          ≡ denies (elim parsed.result [
            | parse_ok ↦
                due_flow env config
                  (record parsed.key { subject_id = subject })
                  subject
                  parsed.examined
                  s
            | _ ↦ policy_verdict (active s config) subject class_unclassified
          ])
    unfolding known_subject emit_if_enforcing
    known_subject-deny parsed subject classed =
        let key = record parsed.key { subject_id = subject } in
        ground (
          arith,
          track_flow-deny key parsed.examined classed,
          emit-deny skb (count stat_parse_unsupported s)
              (policy_verdict (active s config) subject class_unclassified),
        )

    after_parse-deny :
        (parsed : Parsed)
        → parsed.result ≢ parse_no_ethernet
        → IsClassed env config s parsed
        → deny_bit (after_parse env (cleared skb) config s parsed).skb
          ≡ denies (due env config s parsed)
    unfolding after_parse by_subject due emit_if_enforcing
    after_parse-deny parsed eth classed =
        elim (Option-cases ((active s config).subject parsed.mac)) [
          | inl unknown ↦ grind (arith, emit-deny)
          | inr (subject, known) ↦
              let stamped =
                known_subject-deny parsed subject
                  (λ flow there. classed subject flow known there) in
              grind arith
        ]

-- A run under a published control record that is enabled.
pub ingress-after_parse :
    {k : Kernel} (env : Env) (skb : SkBuff) (s : State k) (config : Config) (parsed : Parsed)
    → s.config ≡ some config
    → config.enabled ≢ 0
    → parse_flow skb.bytes skb.len ≡ some parsed
    → ingress env skb s ≡ some (after_parse env (cleared skb) config (count stat_packets s) parsed)
unfolding ingress ingress_configured
ingress-after_parse env skb s config parsed control enabled read =
    ap (λ (c : Option Config). ingress_configured env (cleared skb) c s) control ∙ ground arith

-- The deny bit refines the specification. On a coherent state, with the program enabled,
-- enforcing and given a frame with an Ethernet header, and where the record of the packet's flow
-- has a class if there is one, a run marks a denial exactly if the verdict that is due denies:
-- that for unknown subjects; for a packet that the parser does not support, the policy on
-- unclassified traffic; for a flow of the map, the published policy on its class, whatever verdict
-- and generation its record holds; for a flow that is not in the map, the provisional verdict if
-- the flow opens, and the policy on unclassified traffic if not.
pub ingress-due :
    {k : Kernel} (env : Env) (skb : SkBuff) (s : State k) (config : Config) (parsed : Parsed)
    → IsCoherent s
    → s.config ≡ some config
    → config.enabled ≢ 0
    → enforcing config ≡ true
    → 14 ≤ length skb.bytes
    → parse_flow skb.bytes skb.len ≡ some parsed
    → IsClassed env config s parsed
    → (d : Done k) × (ingress env skb s ≡ some d)
      × (deny_bit d.skb ≡ denies (due env config s parsed))
unfolding active
ingress-due env skb s config parsed coherent control enabled on long read classed =
    let (parsed', read', (_, eth)) = parse_flow_in_bounds skb.bytes skb.len in
    let same : parsed' ≡ parsed = Option.some-injective parsed' parsed (sym read' ∙ read) in
    let eth' : parsed.result ≡ parse_no_ethernet → length skb.bytes < 14 =
      subst (λ p. p.result ≡ parse_no_ethernet → length skb.bytes < 14) same eth in
    (
      after_parse env (cleared skb) config (count stat_packets s) parsed,
      ingress-after_parse env skb s config parsed control enabled read,
      after_parse-deny env config skb (count stat_packets s) on (coherent config control) parsed
            (λ e. absurd (omega (arith, eth' e))) classed
          ∙ ap denies (due-stats env config parsed s _),
    )
