-- ===== src/Datapath/Ingress/Preserves.antt =====
-- src/client-access-bpf.c, `ca_ingress`: every run keeps the invariant of the flow map.
use client_access.Prelude.{refl, ℕ, ◌≡◌, some, Option-cases, Bool-cases, inl, inr, arith, ◌==◌}
use client_access.Abi.{class_unclassified, Config, FlowKey, FlowState, flow_pending, kind_none}
use client_access.Datapath.Parse.{
  ParseResult, parse_ok, parse_no_ethernet, parse_unsupported, Parsed,
}
use client_access.Datapath.State.{stat_parse_unsupported, Kernel, State, Slot, SkBuff, active}
use client_access.Datapath.Rate.{pending_reserve}
use client_access.Datapath.Flow.{count, admit_classification, Env, touched}
use client_access.Datapath.Flow.Admission.{KeepsCore, admit_classification-KeepsCore}
use client_access.Datapath.Verdict.{policy_verdict}
use client_access.Datapath.Ingress.{
  by_subject, emit_if_enforcing, enforcing, correlate, correlation_flow, new_flow, serve_cached,
  known_flow, track_flow, known_subject, after_parse,
}
use client_access.Datapath.Ingress.Coherent.{write-Coherent, delete-Coherent, insert-Coherent}
use client_access.Datapath.Ingress.Invariant.{
  Inv, Inv-InvBut, touched-IsServable, emit-Inv, with_stats, with_flows, with_runtime, store-Inv,
  load_shed-Inv, open_flow-Inv,
}

module _ {k : Kernel} (slot : Slot) (config : Config) where
  KeepsCore-Inv : (s t : State k) → KeepsCore s t → Inv slot config s → Inv slot config t
  unfolding active
  KeepsCore-Inv s t c i = record {
    published = record {
      control = rw c.config i.published.control;
      snapshot = rw (c.slot_a, c.slot_b) i.published.snapshot;
    };
    coherent = rw c.flows i.coherent;
  }

  correlate-Inv :
      (skb : SkBuff) (key : FlowKey) (now : ℕ) (s : State k)
      → Inv slot config s
      → Inv slot config (correlate skb config key now s).state
  unfolding correlate
  correlate-Inv skb key now s i =
      elim (Option-cases (k.flow_map.insert s.flows key (correlation_flow config now))) [
        | inr (flows, stored) ↦
            rw (stored, correlate)
              (with_stats slot config _ _ (
                with_flows slot config s flows i.published (
                  insert-Coherent k.flow_map slot config key s.flows flows _ stored
                    (record { settled = omega arith; current = λ g n. absurd (n refl) })
                    (Inv-InvBut slot config key s i).coherent)))
        | inl refused ↦ elim (Option-cases (k.flow_map.lookup s.flows key)) [
          | inr (_, there) ↦ rw (refused, correlate, there) i
          | inl full ↦ rw (refused, correlate, full) (with_stats slot config s _ i)
        ]
      ]

  new_flow-Inv :
      (env : Env) (skb : SkBuff) (key : FlowKey) (examined : ℕ) (s : State k)
      → Inv slot config s
      → Inv slot config (new_flow env skb config key key.subject_id examined s).state
  unfolding new_flow
  new_flow-Inv env skb key examined s i =
      let a = admit_classification env config key.subject_id s in
      let p = pending_reserve env.pending_others a.1.runtime config.max_pending_entries in
      let kept =
        KeepsCore-Inv s a.1 (admit_classification-KeepsCore env config key.subject_id s) i in
      elim (Bool-cases (enforcing config)) [
        | inr off ↦ rw off (correlate-Inv skb key env.now s i)
        | inl on ↦ rw on (elim (Bool-cases a.0) [
          | inr denied ↦ rw denied (load_shed-Inv slot config skb key env.now a.1 kept)
          | inl admitted ↦ rw admitted (elim (Bool-cases p.0) [
            | inr full ↦ rw full (
                load_shed-Inv slot config skb key env.now _ (with_runtime slot config a.1 p.1 kept))
            | inl reserved ↦ rw reserved (
                open_flow-Inv slot config env skb key examined _
                  (with_runtime slot config a.1 p.1 kept))
          ])
        ])
      ]

  -- The record just looked up is stamped with the time.
  touched_map :
      (key : FlowKey) (now : ℕ) (flow : FlowState) (s : State k)
      → Inv slot config s
      → k.flow_map.lookup s.flows key ≡ some flow
      → Inv slot config (record s { flows = k.flow_map.write s.flows key (touched now flow) })
  touched_map key now flow s i there = with_flows slot config s _ i.published (
      write-Coherent k.flow_map slot config key s.flows _ flow there
        (touched-IsServable slot config key now flow (i.coherent key flow there))
        (Inv-InvBut slot config key s i).coherent)

  serve_cached-Inv :
      (skb : SkBuff) (key : FlowKey) (seen : FlowState) (s : State k)
      → Inv slot config s
      → k.flow_map.lookup s.flows key ≡ some seen
      → Inv slot config (serve_cached skb config key key.subject_id seen s).state
  unfolding serve_cached
  serve_cached-Inv skb key seen s i there = rw i.published.snapshot (
      emit-Inv slot config _ _ _ (
        store-Inv slot config key seen seen s.stats s (Inv-InvBut slot config key s i) there
          (i.coherent key seen there)))

  known_flow-Inv :
      (env : Env) (skb : SkBuff) (key : FlowKey) (examined : ℕ) (flow : FlowState) (s : State k)
      → Inv slot config s
      → k.flow_map.lookup s.flows key ≡ some flow
      → Inv slot config (known_flow env skb config key key.subject_id examined flow s).state
  unfolding known_flow
  known_flow-Inv env skb key examined flow s i there =
      let seen = touched env.now flow in
      let next = touched_map key env.now flow s i there in
      elim (Bool-cases (enforcing config)) [
        | inr off ↦ rw off next
        | inl on ↦ rw on (elim (Bool-cases (flow.classification_state == flow_pending)) [
          | inl pending ↦ rw pending (emit-Inv slot config _ _ _ next)
          | inr settled ↦ rw settled (elim (Bool-cases (flow.class_kind == kind_none)) [
            | inr classified ↦ rw classified (
                serve_cached-Inv skb key seen _ next
                  (k.flow_map.lookup-write_self s.flows key seen flow there))
            | inl unclassified ↦ rw unclassified (
                new_flow-Inv env skb key examined _ (
                  with_flows slot config _ _ next.published (
                    delete-Coherent k.flow_map slot config key _
                      (Inv-InvBut slot config key _ next).coherent)))
          ])
        ])
      ]

  track_flow-Inv :
      (env : Env) (skb : SkBuff) (key : FlowKey) (examined : ℕ) (s : State k)
      → Inv slot config s
      → Inv slot config (track_flow env skb config key key.subject_id examined s).state
  unfolding track_flow
  track_flow-Inv env skb key examined s i = elim (Option-cases (k.flow_map.lookup s.flows key)) [
    | inl absent ↦ rw (absent, track_flow) (new_flow-Inv env skb key examined s i)
    | inr (flow, there) ↦
        rw (there, track_flow) (known_flow-Inv env skb key examined flow s i there)
  ]

  emit_if_enforcing-Inv :
      (skb : SkBuff) (verdict : ℕ) (s : State k)
      → Inv slot config s
      → Inv slot config (emit_if_enforcing skb config verdict s).state
  unfolding emit_if_enforcing
  emit_if_enforcing-Inv skb verdict s i = elim (Bool-cases (enforcing config)) [
    | inl on ↦ rw on (emit-Inv slot config s skb verdict i)
    | inr off ↦ rw off i
  ]

  known_subject-Inv :
      (env : Env) (skb : SkBuff) (parsed : Parsed) (subject : ℕ) (s : State k)
      → Inv slot config s
      → Inv slot config (known_subject env skb config parsed subject s).state
  unfolding known_subject
  known_subject-Inv env skb parsed subject s i = by_result parsed.result refl
    where
      unsupported :
          Inv slot config
            (emit_if_enforcing skb config
              (policy_verdict (active s config) subject class_unclassified)
              (count stat_parse_unsupported s)).state
      unsupported = emit_if_enforcing-Inv skb _ _ (with_stats slot config s _ i)

      by_result :
          (r : ParseResult)
          → parsed.result ≡ r
          → Inv slot config (known_subject env skb config parsed subject s).state
      by_result parse_ok e =
          rw (e, known_subject)
            (track_flow-Inv env skb (record parsed.key { subject_id = subject }) parsed.examined s
              i)
      by_result parse_no_ethernet e = rw (e, known_subject) unsupported
      by_result parse_unsupported e = rw (e, known_subject) unsupported

  by_subject-Inv :
      (env : Env) (skb : SkBuff) (parsed : Parsed) (s : State k)
      → Inv slot config s
      → Inv slot config (by_subject env skb config s parsed).state
  unfolding by_subject
  by_subject-Inv env skb parsed s i = elim (Option-cases ((active s config).subject parsed.mac)) [
    | inl unknown ↦
        rw (unknown, by_subject)
          (emit_if_enforcing-Inv skb config.unknown_subject_app_verdict _
            (with_stats slot config s _ i))
    | inr (subject, known) ↦ rw (known, by_subject) (known_subject-Inv env skb parsed subject s i)
  ]

  pub after_parse-Inv :
      (env : Env) (skb : SkBuff) (parsed : Parsed) (s : State k)
      → Inv slot config s
      → Inv slot config (after_parse env skb config s parsed).state
  unfolding after_parse
  after_parse-Inv env skb parsed s i = by_result parsed.result refl
    where
      by_result :
          (r : ParseResult)
          → parsed.result ≡ r
          → Inv slot config (after_parse env skb config s parsed).state
      by_result parse_ok e = rw (e, after_parse) (by_subject-Inv env skb parsed s i)
      by_result parse_no_ethernet e = rw (e, after_parse) i
      by_result parse_unsupported e = rw (e, after_parse) (by_subject-Inv env skb parsed s i)
