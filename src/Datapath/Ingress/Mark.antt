-- ===== src/Datapath/Ingress/Mark.antt =====
-- src/client-access-bpf.c, `ca_ingress`: what the program may do to a packet, on every path.
use client_access.Prelude.{
  refl, Bool-cases, inl, inr, if◌then◌else◌, leb, length, not, ◌&&◌, ◌==◌, ◌<◌, List, Bool, Option,
  none, some, ◌↔◌, false, ℕ, ◌≡◌, true, arith, ◌≢◌,
}
use client_access.Abi.{Config, FlowKey, FlowState}
use client_access.Datapath.Parse.{parse_flow, Parsed, parse_no_ethernet}
use client_access.Datapath.State.{stat_packets, Kernel, State, SkBuff, Done, tc_act_unspec}
use client_access.Datapath.Verdict.Mark.{
  deny_bit, clear_app_mark-Unstamped, Keeps, valid_bit, cleared, emit_app_verdict-Stamped,
}
use client_access.Datapath.Parse.Safety.{parse_flow_in_bounds}
use client_access.Datapath.Flow.{count, Env, emit, reuse, load_shed}
use client_access.Datapath.Ingress.{
  correlate, enforcing, settle, store_result, open_flow, new_flow, known_flow, serve_cached,
  track_flow, known_subject, after_parse, by_subject, emit_if_enforcing, ingress, pass,
  ingress_configured,
}

module _ {k : Kernel} (skb : SkBuff) where
  -- Some verdict was stamped on the packet, and nothing else of it changed.
  record Emitted (d : Done k) : Type 0 where
    keeps : Keeps skb d.skb
    valid : valid_bit d.skb ≡ 1
    action : d.action ≡ tc_act_unspec

  emit-Emitted : (s : State k) (v : ℕ) → Emitted (emit s (cleared skb) v)
  unfolding emit
  emit-Emitted s v = ground (arith, emit_app_verdict-Stamped skb v s.stats)

  reuse-Emitted :
      (config : Config) (key : FlowKey) (subject now : ℕ) (flow : FlowState) (s : State k)
      → Emitted (reuse (cleared skb) config key subject now flow s)
  unfolding reuse
  reuse-Emitted config key subject now flow s = grind (arith, emit-Emitted)

  load_shed-Emitted :
      (config : Config) (key : FlowKey) (subject now : ℕ) (s : State k)
      → Emitted (load_shed (cleared skb) config key subject now s)
  unfolding load_shed
  load_shed-Emitted config key subject now s = grind (arith, emit-Emitted, reuse-Emitted)

  settle-Emitted :
      (env : Env) (config : Config) (key : FlowKey) (subject examined : ℕ) (s : State k)
      → Emitted (settle env (cleared skb) config key subject examined s)
  unfolding settle store_result
  settle-Emitted env config key subject examined s = grind (arith, emit-Emitted, load_shed-Emitted)

  open_flow-Emitted :
      (env : Env) (config : Config) (key : FlowKey) (subject examined : ℕ) (s : State k)
      → Emitted (open_flow env (cleared skb) config key subject examined s)
  unfolding open_flow
  open_flow-Emitted env config key subject examined s =
      grind (arith, settle-Emitted, load_shed-Emitted)

  module _ (config : Config) (on : enforcing config ≡ true) where
    new_flow-Emitted :
        (env : Env) (key : FlowKey) (subject examined : ℕ) (s : State k)
        → Emitted (new_flow env (cleared skb) config key subject examined s)
    unfolding new_flow
    new_flow-Emitted env key subject examined s =
        rw on (grind (arith, open_flow-Emitted, load_shed-Emitted))

    serve_cached-Emitted :
        (key : FlowKey) (subject : ℕ) (seen : FlowState) (s : State k)
        → Emitted (serve_cached (cleared skb) config key subject seen s)
    unfolding serve_cached
    serve_cached-Emitted key subject seen s = grind (arith, emit-Emitted)

    known_flow-Emitted :
        (env : Env) (key : FlowKey) (subject examined : ℕ) (flow : FlowState) (s : State k)
        → Emitted (known_flow env (cleared skb) config key subject examined flow s)
    unfolding known_flow
    known_flow-Emitted env key subject examined flow s =
        rw on (grind (arith, emit-Emitted, serve_cached-Emitted, new_flow-Emitted))

    track_flow-Emitted :
        (env : Env) (key : FlowKey) (subject examined : ℕ) (s : State k)
        → Emitted (track_flow env (cleared skb) config key subject examined s)
    unfolding track_flow
    track_flow-Emitted env key subject examined s =
        grind (arith, known_flow-Emitted, new_flow-Emitted)

    known_subject-Emitted :
        (env : Env) (parsed : Parsed) (subject : ℕ) (s : State k)
        → Emitted (known_subject env (cleared skb) config parsed subject s)
    unfolding known_subject emit_if_enforcing
    known_subject-Emitted env parsed subject s = grind (arith, emit-Emitted, track_flow-Emitted)

    after_parse-Emitted :
        (env : Env) (parsed : Parsed) (s : State k)
        → parsed.result ≢ parse_no_ethernet
        → Emitted (after_parse env (cleared skb) config s parsed)
    unfolding after_parse by_subject emit_if_enforcing
    after_parse-Emitted env parsed s h = grind (arith, emit-Emitted, known_subject-Emitted)

  -- The packet passes with its two bits cleared.
  record Passed (d : Done k) : Type 0 where
    unmarked : d.skb ≡ cleared skb
    action : d.action ≡ tc_act_unspec

  module _ (config : Config) (off : enforcing config ≡ false) where
    new_flow-Passed :
        (env : Env) (key : FlowKey) (subject examined : ℕ) (s : State k)
        → Passed (new_flow env (cleared skb) config key subject examined s)
    unfolding new_flow correlate
    new_flow-Passed env key subject examined s = rw off (ground arith)

    known_flow-Passed :
        (env : Env) (key : FlowKey) (subject examined : ℕ) (flow : FlowState) (s : State k)
        → Passed (known_flow env (cleared skb) config key subject examined flow s)
    unfolding known_flow
    known_flow-Passed env key subject examined flow s = rw off (ground arith)

    after_parse-Passed :
        (env : Env) (parsed : Parsed) (s : State k)
        → Passed (after_parse env (cleared skb) config s parsed)
    unfolding after_parse by_subject known_subject track_flow emit_if_enforcing
    after_parse-Passed env parsed s = grind (arith, new_flow-Passed, known_flow-Passed)

abbrev pub has_ethernet : SkBuff → Bool
has_ethernet skb = leb 14 (length skb.bytes)

-- The control record asks for a verdict on the packet.
abbrev pub judging : Option Config → Bool
judging none = false
judging (some config) = not (config.enabled == 0) && enforcing config

-- What the program owes a packet: nothing but the two bits changes, a verdict is marked valid
-- exactly if one is due, and no denial is marked without one.
pub record Marked {k : Kernel} (skb : SkBuff) (due : Bool) (d : Done k) : Type 0 where
  pub keeps : Keeps skb d.skb
  pub action : d.action ≡ tc_act_unspec
  pub valid : valid_bit d.skb ≡ (if due then 1 else 0)
  pub deny : due ≡ false → deny_bit d.skb ≡ 0

parse_flow_short :
    (p : List ℕ) (packet_len : ℕ) (r : Parsed)
    → parse_flow p packet_len ≡ some r
    → length p < 14
    → r.result ≡ parse_no_ethernet
unfolding parse_flow
parse_flow_short p packet_len r h short = ground arith

module _ {k : Kernel} (skb : SkBuff) where
  Emitted-Marked : (d : Done k) → Emitted skb d → Marked skb true d
  Emitted-Marked d e = record {
    keeps = e.keeps;
    action = e.action;
    valid = e.valid;
    deny = λ h. cc;
  }

  Passed-Marked : (d : Done k) → Passed skb d → Marked skb false d
  Passed-Marked d p =
      let u = clear_app_mark-Unstamped skb in
      record {
        keeps = rw p.unmarked u.keeps;
        action = p.action;
        valid = rw p.unmarked u.valid;
        deny = λ h. rw p.unmarked u.deny;
      }

  after_parse-no_ethernet :
      (env : Env) (config : Config) (parsed : Parsed) (s : State k)
      → parsed.result ≡ parse_no_ethernet
      → Passed skb (after_parse env (cleared skb) config s parsed)
  unfolding after_parse
  after_parse-no_ethernet env config parsed s h = ground arith

  after_parse-Marked :
      (env : Env) (config : Config) (parsed : Parsed) (s : State k)
      → ((parsed.result ≡ parse_no_ethernet) ↔ (length skb.bytes < 14))
      → Marked skb
          (enforcing config && has_ethernet skb)
          (after_parse env (cleared skb) config s parsed)
  after_parse-Marked env config parsed s eth = elim (Bool-cases (enforcing config)) [
    | inr off ↦ rw off (Passed-Marked _ (after_parse-Passed skb config off env parsed s))
    | inl on ↦ elim (Bool-cases (has_ethernet skb)) [
      | inl long ↦
          rw (on, long)
            (Emitted-Marked _ (after_parse-Emitted skb config on env parsed s (ground arith)))
      | inr short ↦
          rw (on, short)
            (Passed-Marked _ (after_parse-no_ethernet env config parsed s (eth.1 (ground arith))))
    ]
  ]

  ingress_configured-Marked :
      (env : Env) (config : Option Config) (s : State k)
      → (d : Done k) × (ingress_configured env (cleared skb) config s ≡ some d)
        × Marked skb (judging config && has_ethernet skb) d
  unfolding ingress_configured
  ingress_configured-Marked env none s =
      (pass s (cleared skb), refl, Passed-Marked _ (record { unmarked = refl; action = refl }))
  ingress_configured-Marked env (some config) s = elim (Bool-cases (config.enabled == 0)) [
    | inl disabled ↦
        rw disabled
          (pass s (cleared skb), refl, Passed-Marked _ (record { unmarked = refl; action = refl }))
    | inr enabled ↦
        let (parsed, e, (_, eth)) = parse_flow_in_bounds skb.bytes skb.len in
        rw (enabled, e)
          (
            after_parse env (cleared skb) config (count stat_packets s) parsed,
            refl,
            after_parse-Marked env config parsed (count stat_packets s)
                (eth, parse_flow_short skb.bytes skb.len parsed e),
          )
  ]

-- One run of the program, on any packet, in any state, whatever other CPUs do to the counters:
-- it ends with TC_ACT_UNSPEC and reads only inside of the packet; of the packet only mark bits
-- 29 and 30 change; the valid bit is set exactly if the program is enabled, enforces application
-- policy and sees an Ethernet header; if not, the deny bit is clear as well.
pub ingress_marks :
    {k : Kernel} (env : Env) (skb : SkBuff) (s : State k)
    → (d : Done k) × (ingress env skb s ≡ some d)
      × Marked skb (judging s.config && has_ethernet skb) d
unfolding ingress
ingress_marks env skb s = ingress_configured-Marked skb env s.config s
