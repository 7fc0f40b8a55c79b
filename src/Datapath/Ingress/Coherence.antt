-- ===== src/Datapath/Ingress/Coherence.antt =====
-- src/client-access-bpf.c, `ca_ingress`: the verdicts kept in `ca_flows` across runs.
use client_access.Prelude.{◌≡◌, refl, sym, ◌∙◌, Option, none, some, Bool-cases, inl, inr, ◌==◌}
use mathlib.Core.Option
use mathlib.Core.Path.{subst}
use client_access.Abi.{Config}
use client_access.Datapath.Parse.Safety.{parse_flow_in_bounds}
use client_access.Datapath.State.{Kernel, State, SkBuff, Done, active, stat_packets}
use client_access.Datapath.Flow.{Env, count}
use client_access.Datapath.Ingress.{ingress, ingress_configured, after_parse, pass}
use client_access.Datapath.Ingress.Coherent.{Coherent}
use client_access.Datapath.Ingress.Invariant.{Inv, with_stats}
use client_access.Datapath.Ingress.Preserves.{after_parse-Inv}

module _ {k : Kernel} where
  -- Under the published control record every flow record is decided, and those of the published
  -- generation that have a class carry the verdict of the published policy on it. The verdict of a
  -- record without a class, such as one made for correlation alone, is not told.
  abbrev pub IsCoherent : State k → Type 0
  IsCoherent s =
      (config : Config)
      → s.config ≡ some config
      → Coherent k.flow_map (active s config) config s.flows

  Inv-IsCoherent : (config : Config) (s t : State k) → Inv (active s config) config t → IsCoherent t
  Inv-IsCoherent config s t i config' e =
      subst (λ c. Coherent k.flow_map (active t c) c t.flows)
        (Option.some-injective config config' (sym i.published.control ∙ e))
        (rw i.published.snapshot i.coherent)

  IsCoherent-Inv :
      (config : Config) (s : State k)
      → s.config ≡ some config
      → IsCoherent s
      → Inv (active s config) config s
  IsCoherent-Inv config s e c = record {
    published = record { control = e; snapshot = refl };
    coherent = c config e;
  }

  ingress_configured-IsCoherent :
      (env : Env) (skb : SkBuff) (found : Option Config) (s : State k)
      → s.config ≡ found
      → IsCoherent s
      → (d : Done k) × (ingress_configured env skb found s ≡ some d) × IsCoherent d.state
  unfolding ingress_configured
  ingress_configured-IsCoherent env skb none s e c = (pass s skb, refl, c)
  ingress_configured-IsCoherent env skb (some config) s e c =
      elim (Bool-cases (config.enabled == 0)) [
        | inl disabled ↦ rw disabled (pass s skb, refl, c)
        | inr enabled ↦
            let (parsed, read, _) = parse_flow_in_bounds skb.bytes skb.len in
            rw (enabled, read)
              (
                after_parse env skb config (count stat_packets s) parsed,
                refl,
                Inv-IsCoherent config s _ (
                    after_parse-Inv (active s config) config env skb parsed _
                      (with_stats (active s config) config s _ (IsCoherent-Inv config s e c))),
              )
      ]

-- Whatever packet it is run on, and whatever other CPUs do to the counters meanwhile,
-- `ca_ingress` ends and keeps the flow map coherent: no record stays undecided, and a classified
-- record of the published generation carries the verdict that the published policy gives its
-- subject on its class.
pub ingress-IsCoherent :
    {k : Kernel} (env : Env) (skb : SkBuff) (s : State k)
    → IsCoherent s
    → (d : Done k) × (ingress env skb s ≡ some d) × IsCoherent d.state
unfolding ingress
ingress-IsCoherent env skb s c = ingress_configured-IsCoherent env _ s.config s refl c
