-- ===== src/Datapath/Ingress/Accounting.antt =====
-- src/client-access-bpf.c, `ca_ingress`: the pending count across one run on one CPU.
use client_access.Prelude.{
  ℕ, ◌^◌, ◌<◌, ◌≡◌, refl, ◌∙◌, ◌≢◌, ◌⊎◌, ap, true, Option, some, [], arith, Option-cases, inl, inr,
}
use client_access.Abi.{Config, FlowKey, FlowState}
use client_access.Datapath.Parse.{Parsed}
use client_access.Datapath.Parse.Safety.{parse_flow_in_bounds}
use client_access.Datapath.State.{Kernel, State, SkBuff, Done, stat_packets}
use client_access.Datapath.Rate.{pending_reserve, pending_release}
use client_access.Datapath.Rate.Pending.{reserve-release, reserve_refused, KeepsCount}
use client_access.Datapath.Flow.{
  Env, Terminal, touched, count, emit, reuse, load_shed, admit_classification,
}
use client_access.Datapath.Flow.Admission.{admit_classification-KeepsCore}
use client_access.Datapath.Flow.Decision.{try_terminal-Decided}
use client_access.Datapath.Ingress.{
  pending_flow, store_result, settle, open_flow, new_flow, serve_cached, known_flow, track_flow,
  known_subject, by_subject, after_parse, ingress, correlate, emit_if_enforcing,
}
use client_access.Datapath.Verdict.Mark.{cleared}
use client_access.Datapath.Ingress.Refinement.{ingress-after_parse}

same : (w : ℕ) (runtime : Option ℕ) → runtime ≡ some w → KeepsCount w runtime
unfolding KeepsCount
same w runtime e = (w, e, refl, inl refl)

module _ {k : Kernel} where
  emit-runtime : (s : State k) (skb : SkBuff) (v : ℕ) → (emit s skb v).state.runtime ≡ s.runtime
  unfolding emit
  emit-runtime s skb v = refl

  serve_cached-runtime :
      (skb : SkBuff) (config : Config) (key : FlowKey) (subject : ℕ) (flow : FlowState)
      (s : State k)
      → (serve_cached skb config key subject flow s).state.runtime ≡ s.runtime
  unfolding serve_cached emit
  serve_cached-runtime skb config key subject flow s = refl

  load_shed-runtime :
      (skb : SkBuff) (config : Config) (key : FlowKey) (subject now : ℕ) (s : State k)
      → (load_shed skb config key subject now s).state.runtime ≡ s.runtime
  unfolding load_shed reuse emit
  load_shed-runtime skb config key subject now s = ground arith

  store_result-runtime :
      (env : Env) (skb : SkBuff) (config : Config) (key : FlowKey) (subject : ℕ) (r : Terminal)
      (s : State k)
      → r.terminal ≡ true
      → (store_result env skb config key subject r s).state.runtime ≡ pending_release s.runtime
  unfolding store_result
  store_result-runtime env skb config key subject r s h =
      grind (arith, emit-runtime, load_shed-runtime)

  -- A flow that took a pending slot gives it back in the same run.
  open_flow-runtime :
      (env : Env) (skb : SkBuff) (config : Config) (key : FlowKey) (examined : ℕ) (s : State k)
      → (open_flow env skb config key key.subject_id examined s).state.runtime
        ≡ pending_release s.runtime
  unfolding open_flow settle
  open_flow-runtime env skb config key examined s =
      let flow = pending_flow config env.now examined in
      elim (Option-cases (k.flow_map.insert s.flows key flow)) [
        | inl refused ↦ rw (refused, open_flow) (load_shed-runtime skb config key _ env.now _)
        | inr (flows, stored) ↦
            rw (stored, open_flow)
              (store_result-runtime env skb config key key.subject_id _ _
                (try_terminal-Decided _ config flow key env.now _ (omega arith)).terminal)
      ]

  module _ (env : Env) (config : Config) (w : ℕ) (alone : env.pending_others ≡ [])
      (fits : w < 2 ^ 64) (small : config.max_pending_entries < 2 ^ 32) where
    -- The pending word is left alone, or reserved and released.
    new_flow_cases :
        (skb : SkBuff) (key : FlowKey) (examined : ℕ) (s : State k)
        → s.runtime ≡ some w
        → let p = pending_reserve [] (some w) config.max_pending_entries in
          let final = (new_flow env skb config key key.subject_id examined s).state.runtime in
          (final ≡ some w) ⊎ ((p.0 ≡ true) × (final ≡ pending_release p.1))
    unfolding new_flow correlate
    new_flow_cases skb key examined s e =
        let a = admit_classification env config key.subject_id s in
        let p = pending_reserve env.pending_others a.1.runtime config.max_pending_entries in
        let kept : a.1.runtime ≡ some w =
          (admit_classification-KeepsCore env config key.subject_id s).runtime ∙ e in
        let p_eq : p ≡ pending_reserve [] (some w) config.max_pending_entries =
          ap (λ others. pending_reserve others a.1.runtime config.max_pending_entries) alone
          ∙ ap (λ runtime. pending_reserve [] runtime config.max_pending_entries) kept in
        ground (
          arith,
          reserve_refused config.max_pending_entries w,
          load_shed-runtime skb config key key.subject_id env.now a.1,
          load_shed-runtime skb config key key.subject_id env.now (record a.1 { runtime = p.1 }),
          open_flow-runtime env skb config key examined (record a.1 { runtime = p.1 }),
        )

    new_flow-KeepsCount :
        (skb : SkBuff) (key : FlowKey) (examined : ℕ) (s : State k)
        → s.runtime ≡ some w
        → KeepsCount w (new_flow env skb config key key.subject_id examined s).state.runtime
    unfolding KeepsCount
    new_flow-KeepsCount skb key examined s e = elim (new_flow_cases skb key examined s e) [
      | inl kept ↦ same w _ kept
      | inr (granted, final) ↦
          let (v, stored, low, high) =
            reserve-release config.max_pending_entries w fits small granted in
          (v, final ∙ stored, low, inr high)
    ]

    track_flow-KeepsCount :
        (skb : SkBuff) (key : FlowKey) (examined : ℕ) (s : State k)
        → s.runtime ≡ some w
        → KeepsCount w (track_flow env skb config key key.subject_id examined s).state.runtime
    unfolding track_flow known_flow emit
    track_flow-KeepsCount skb key examined s e =
        elim (Option-cases (k.flow_map.lookup s.flows key)) [
          | inl absent ↦ rw (absent, track_flow) (new_flow-KeepsCount skb key examined s e)
          | inr (flow, there) ↦
              let gone =
                k.flow_map.delete (k.flow_map.write s.flows key (touched env.now flow)) key in
              rw (there, track_flow)
                (ground (
                  arith,
                  same w s.runtime e,
                  serve_cached-runtime skb config key key.subject_id (touched env.now flow)
                      (record s { flows = k.flow_map.write s.flows key (touched env.now flow) }),
                  new_flow-KeepsCount skb key examined (record s { flows = gone }) e,
                ))
        ]

    known_subject-KeepsCount :
        (skb : SkBuff) (s : State k) (parsed : Parsed) (subject : ℕ)
        → s.runtime ≡ some w
        → KeepsCount w (known_subject env skb config parsed subject s).state.runtime
    unfolding known_subject emit_if_enforcing emit
    known_subject-KeepsCount skb s parsed subject e =
        let key = record parsed.key { subject_id = subject } in
        ground (arith, same w s.runtime e, track_flow-KeepsCount skb key parsed.examined s e)

    after_parse-KeepsCount :
        (skb : SkBuff) (s : State k) (parsed : Parsed)
        → s.runtime ≡ some w
        → KeepsCount w (after_parse env skb config s parsed).state.runtime
    unfolding after_parse by_subject emit_if_enforcing emit
    after_parse-KeepsCount skb s parsed e = grind (arith, same, known_subject-KeepsCount)

-- The pending count is given back. With no other CPU at the pending word, a word of 64 bits and a
-- limit of 32 bits, a run under a published control record that is enabled ends with the count
-- that it found, and the peak is kept or is one more than that count, if that is larger.
pub ingress-KeepsCount :
    {k : Kernel} (env : Env) (skb : SkBuff) (s : State k) (config : Config) (w : ℕ)
    → env.pending_others ≡ []
    → w < 2 ^ 64
    → config.max_pending_entries < 2 ^ 32
    → s.config ≡ some config
    → config.enabled ≢ 0
    → s.runtime ≡ some w
    → (d : Done k) × (ingress env skb s ≡ some d) × KeepsCount w d.state.runtime
ingress-KeepsCount env skb s config w alone fits small control enabled there =
    let (parsed, read, _) = parse_flow_in_bounds skb.bytes skb.len in
    (
      after_parse env (cleared skb) config (count stat_packets s) parsed,
      ingress-after_parse env skb s config parsed control enabled read,
      after_parse-KeepsCount env config w alone fits small (cleared skb) _ parsed there,
    )
