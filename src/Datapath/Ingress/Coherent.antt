-- ===== src/Datapath/Ingress/Coherent.antt =====
-- src/client-access-bpf.c, `ca_flows`: what the record of a flow may be trusted for, and how the map
-- operations keep it.
use client_access.Prelude.{◌≡◌, ◌≢◌, some, none, ◌∙◌, sym}
use native.Mathlib.Decide.{ℕ_discrete}
use mathlib.Core.List.{List-discrete}
use mathlib.Core.Path.{subst}
use mathlib.Core.Option
use client_access.Abi.{Config, FlowKey, FlowState}
use client_access.Kernel.{BpfMap}
use client_access.Datapath.State.{Slot}
use client_access.Datapath.Flow.Decision.{IsServable}

pub FlowKey-discrete : Discrete FlowKey
FlowKey-discrete = hlevel (ℕ_discrete, List-discrete)

module _ (m : BpfMap FlowKey FlowState) (slot : Slot) (config : Config) where
  -- Every record but the one of `hole` may be served.
  abbrev pub CoherentBut : FlowKey → m.Map → Type 0
  CoherentBut hole flows =
      (key : FlowKey) (flow : FlowState)
      → hole ≢ key
      → m.lookup flows key ≡ some flow
      → IsServable slot config key flow

  abbrev pub Coherent : m.Map → Type 0
  Coherent flows =
      (key : FlowKey) (flow : FlowState)
      → m.lookup flows key ≡ some flow
      → IsServable slot config key flow

  pub Coherent-CoherentBut :
      (hole : FlowKey) (flows : m.Map) → Coherent flows → CoherentBut hole flows
  Coherent-CoherentBut hole flows all key flow ne e = all key flow e

  -- The record of `hole` is the one found there.
  CoherentBut-Coherent :
      (hole : FlowKey) (flows : m.Map) (v : FlowState)
      → CoherentBut hole flows
      → m.lookup flows hole ≡ some v
      → IsServable slot config hole v
      → Coherent flows
  CoherentBut-Coherent hole flows v rest here ok key flow e = elim (FlowKey-discrete hole key) [
    | no other ↦ rest key flow other e
    | yes same ↦
        let there : m.lookup flows key ≡ some v =
          subst (λ j. m.lookup flows j ≡ some v) same here in
        let eq : v ≡ flow = Option.some-injective v flow (sym there ∙ e) in
        subst (λ j. IsServable slot config j flow) same
          (subst (λ f. IsServable slot config hole f) eq ok)
  ]

  pub delete-Coherent :
      (hole : FlowKey) (flows : m.Map) → CoherentBut hole flows → Coherent (m.delete flows hole)
  delete-Coherent hole flows rest key flow e = elim (FlowKey-discrete hole key) [
    | no other ↦ rest key flow other (sym (m.lookup-delete_ne flows hole key other) ∙ e)
    | yes same ↦
        let gone : m.lookup (m.delete flows hole) key ≡ none =
          subst (λ j. m.lookup (m.delete flows hole) j ≡ none) same
            (m.lookup-delete_self flows hole) in
        cc
  ]

  pub write-CoherentBut :
      (hole : FlowKey) (flows : m.Map) (v : FlowState)
      → CoherentBut hole flows
      → CoherentBut hole (m.write flows hole v)
  write-CoherentBut hole flows v rest key flow ne e =
      rest key flow ne (sym (m.lookup-write_ne flows hole key v ne) ∙ e)

  pub insert-CoherentBut :
      (hole : FlowKey) (flows new : m.Map) (v : FlowState)
      → m.insert flows hole v ≡ some new
      → CoherentBut hole flows
      → CoherentBut hole new
  insert-CoherentBut hole flows new v h rest key flow ne e =
      rest key flow ne (sym (m.lookup-insert_ne flows new hole key v h ne) ∙ e)

  replace-CoherentBut :
      (hole : FlowKey) (flows new : m.Map) (v : FlowState)
      → m.replace flows hole v ≡ some new
      → CoherentBut hole flows
      → CoherentBut hole new
  replace-CoherentBut hole flows new v h rest key flow ne e =
      rest key flow ne (sym (m.lookup-replace_ne flows new hole key v h ne) ∙ e)

  -- The three ways in which the program stores a record that may be served.
  pub write-Coherent :
      (hole : FlowKey) (flows : m.Map) (v w : FlowState)
      → m.lookup flows hole ≡ some w
      → IsServable slot config hole v
      → CoherentBut hole flows
      → Coherent (m.write flows hole v)
  write-Coherent hole flows v w there ok rest =
      CoherentBut-Coherent hole (m.write flows hole v) v (write-CoherentBut hole flows v rest)
        (m.lookup-write_self flows hole v w there) ok

  pub insert-Coherent :
      (hole : FlowKey) (flows new : m.Map) (v : FlowState)
      → m.insert flows hole v ≡ some new
      → IsServable slot config hole v
      → CoherentBut hole flows
      → Coherent new
  insert-Coherent hole flows new v h ok rest =
      CoherentBut-Coherent hole new v (insert-CoherentBut hole flows new v h rest)
        (m.lookup-insert_self flows new hole v h) ok

  pub replace-Coherent :
      (hole : FlowKey) (flows new : m.Map) (v : FlowState)
      → m.replace flows hole v ≡ some new
      → IsServable slot config hole v
      → CoherentBut hole flows
      → Coherent new
  replace-Coherent hole flows new v h ok rest =
      CoherentBut-Coherent hole new v (replace-CoherentBut hole flows new v h rest)
        (m.lookup-replace_self flows new hole v h) ok
