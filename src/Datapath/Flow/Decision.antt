-- ===== src/Datapath/Flow/Decision.antt =====
-- src/client-access-bpf.c, `ca_try_terminal`: the first inspected packet of a flow decides it.
use client_access.Prelude.{
  ℕ, ◌≡◌, ◌≢◌, ◌≤◌, true, false, arith, ◌⊎◌, refl, inl, inr, ◌==◌, ◌||◌, Option, none, take, drop,
  Bool-cases,
}
use client_access.Abi.{
  ClassHint, Config, FlowKey, FlowState, flow_pending, flow_classified, flow_unclassified_final,
  kind_none, class_unclassified,
}
use client_access.Datapath.State.{Slot, Stats}
use client_access.Datapath.Verdict.{policy_verdict}
use client_access.Datapath.Classify.{prefix_hint, port_hint, classify, class_of, merge_hints}
use client_access.Datapath.Classify.Hints.{Gives, class_of-merge_hints-IsGiven}
use client_access.Datapath.Flow.{Terminal, budget_exhausted, try_terminal}

-- A record whose verdict may be served: it is decided, and a verdict that stands under the
-- published generation is that of the published policy on the class.
pub record IsServable (slot : Slot) (config : Config) (key : FlowKey) (flow : FlowState)
    : Type 0 where
  pub settled : flow.classification_state ≢ flow_pending
  pub current :
      flow.app_policy_generation ≡ config.app_policy_generation
      → flow.class_kind ≢ kind_none
      → flow.app_verdict ≡ policy_verdict slot key.subject_id flow.class_id

-- The hint of the destination address, looked up with its whole length, and that of the
-- destination port of TCP or UDP.
abbrev pub IsPrefixHint : Slot → FlowKey → Option ClassHint → Type 0
IsPrefixHint slot key hint =
    ((key.eth_proto ≡ 0x0800)
      × (hint ≡ slot.ipv4 (record { prefixlen = 32; addr = take 4 (drop 4 key.addr) })))
    ⊎ (key.eth_proto ≡ 0x86dd)
      × (hint ≡ slot.ipv6 (record { prefixlen = 128; addr = take 16 (drop 16 key.addr) }))
    ⊎ (key.eth_proto ≢ 0x0800) × (key.eth_proto ≢ 0x86dd) × (hint ≡ none)

abbrev pub IsPortHint : Slot → FlowKey → Option ClassHint → Type 0
IsPortHint slot key hint =
    (((key.ip_proto ≡ 6) ⊎ (key.ip_proto ≡ 17))
      × (hint ≡ slot.port (record { ip_proto = key.ip_proto; dst_port = key.dst_port })))
    ⊎ (key.ip_proto ≢ 6) × (key.ip_proto ≢ 17) × (hint ≡ none)

-- What the decision says.
pub record Decided (slot : Slot) (config : Config) (key : FlowKey) (r : Terminal) : Type 0 where
  pub terminal : r.terminal ≡ true
  pub generation : r.flow.app_policy_generation ≡ config.app_policy_generation
  pub verdict : r.flow.app_verdict ≡ policy_verdict slot key.subject_id r.flow.class_id
  pub outcome :
      (a : Option ClassHint) × (b : Option ClassHint) × IsPrefixHint slot key a
      × IsPortHint slot key b
      × ((r.flow.classification_state ≡ flow_classified)
            × (r.flow.class_kind ≢ kind_none)
            × Gives a b r.flow.class_id r.flow.class_kind
          ⊎ (r.flow.classification_state ≡ flow_unclassified_final)
            × (r.flow.class_kind ≡ kind_none)
            × (r.flow.class_id ≡ class_unclassified)
            × ((class_id kind : ℕ) → ¬ Gives a b class_id kind))

prefix_hint_lem : (slot : Slot) (key : FlowKey) → IsPrefixHint slot key (prefix_hint slot key)
unfolding prefix_hint
prefix_hint_lem slot key = elim (Bool-cases (key.eth_proto == 0x0800)) [
  | inl four ↦ inl (ground arith, rw (four, prefix_hint) refl)
  | inr not_four ↦ elim (Bool-cases (key.eth_proto == 0x86dd)) [
    | inl six ↦ inr (inl (ground arith, rw (not_four, six, prefix_hint) refl))
    | inr other ↦ inr (inr (ground arith, ground arith, rw (not_four, other, prefix_hint) refl))
  ]
]

port_hint_lem : (slot : Slot) (key : FlowKey) → IsPortHint slot key (port_hint slot key)
unfolding port_hint
port_hint_lem slot key = elim (Bool-cases (key.ip_proto == 6 || key.ip_proto == 17)) [
  | inl known ↦ inl (ground arith, rw (known, port_hint) refl)
  | inr other ↦ inr (ground arith, ground arith, rw (other, port_hint) refl)
]

-- A record with at least one examined packet is decided at once, whatever the limits of the
-- published configuration. If the hints of the destination prefix and the destination port give a
-- class, the record is classified with it; hints give a class if one of them is for it and the
-- other is absent or of kind NONE, is for the same class, or is for the category of that exact
-- class. If they give none, the record is finally unclassified. The verdict is that of the
-- published policy.
pub try_terminal-Decided :
    (slot : Slot) (config : Config) (flow : FlowState) (key : FlowKey) (now : ℕ) (stats : Stats)
    → 1 ≤ flow.packets_examined
    → Decided slot config key (try_terminal slot config flow key key.subject_id now stats)
unfolding try_terminal budget_exhausted classify
try_terminal-Decided slot config flow key now stats h =
    let a = prefix_hint slot key in
    let b = port_hint slot key in
    elim (class_of-merge_hints-IsGiven a b) [
      | inl (has, given) ↦
          let has' : (class_of (merge_hints a b)).class_kind == 0 ≡ false = ground arith in
          record {
            terminal = rw (has', try_terminal) refl;
            generation = rw (has', try_terminal) refl;
            verdict = rw (has', try_terminal) refl;
            outcome =
                rw (has', try_terminal)
                  (a, b, prefix_hint_lem slot key, port_hint_lem slot key, inl (refl, has, given));
          }
      | inr (no_kind, id, not_given) ↦ record {
        terminal = ground arith;
        generation = ground arith;
        verdict = ground arith;
        outcome = (
          a,
          b,
          prefix_hint_lem slot key,
          port_hint_lem slot key,
          inr (ground arith, ground arith, ground arith, not_given),
        );
      }
    ]
