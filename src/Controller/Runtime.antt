-- ===== src/Controller/Runtime.antt =====
-- src/bpf-runtime.c: `ca_bpf_backend_disable_unlocked`, `ca_bpf_print_generations` and
-- `ca_bpf_gc_flows`. Whether a map opens, for which reason not, and what each call on it answers are
-- parameters.
pub mod Sweep
use client_access.Prelude.{
  ℕ, zero, suc, ◌+◌, ◌-◌, ◌*◌, Bool, true, false, not, Option, none, some, List, [], ◌∷◌, ◌==◌, ltb,
  if◌then◌else◌,
}
use client_access.Prelude.Word.{u64}
use client_access.Abi.{Config, FlowKey, FlowState}
use client_access.Controller.{Bpf, ca_config, ca_flows}

-- Why a call fails: ENOENT, or another error.
pub data Reason : Type 0 where
  enoent : Reason
  other_error : Reason

abbrev pub is_enoent : Reason → Bool
is_enoent enoent = true
is_enoent other_error = false

-- The calls on the control record: the errors of the opening and of the lookup where they fail, and
-- whether the update succeeds.
pub record ConfigCalls : Type 0 where
  pub open_error : Reason
  pub lookup_error : Reason
  pub updates : Bool

-- `true` is the return value 0.
unfoldable pub backend_disable_unlocked : ConfigCalls → Bpf → Bool × Bpf
backend_disable_unlocked calls bpf =
    if not (bpf.maps ca_config) then (is_enoent calls.open_error, bpf) else elim bpf.config [
      | none ↦ (is_enoent calls.lookup_error, bpf)
      | some config ↦
          if calls.updates
          then (true, record bpf { config = some (record config { enabled = 0 }) })
          else (false, bpf)
    ]

unfoldable pub backend_disable : (locks : Bool) → ConfigCalls → Bpf → Bool × Bpf
backend_disable locks calls bpf =
    if not locks then (false, bpf) else backend_disable_unlocked calls bpf

-- The two numbers that are printed; `none` is the return value 1.
unfoldable pub print_generations : Bpf → Option (ℕ × ℕ)
print_generations bpf = if not (bpf.maps ca_config) then none else elim bpf.config [
  | none ↦ none
  | some config ↦ some (config.app_policy_generation, config.classifier_generation)
]

abbrev pub second_ns : ℕ
second_ns = 1000000000

unfoldable pub idle_cutoff : (now idle_seconds : ℕ) → ℕ
idle_cutoff now idle_seconds =
    if ltb (idle_seconds * second_ns) now then now - idle_seconds * second_ns else 0

-- The loop over the flows, from number `i` on: those that are left, and how many were removed.
-- `answer` says whether a lookup and a deletion succeed.
unfoldable pub sweep_flows :
    (looks removes : ℕ → Bool)
    → (cutoff i : ℕ) → List (FlowKey × FlowState)
    → List (FlowKey × FlowState) × ℕ
sweep_flows looks removes cutoff i [] = ([], 0)
sweep_flows looks removes cutoff i ((key, state) ∷ rest) =
    let (left, removed) = sweep_flows looks removes cutoff (suc i) rest in
    if not (looks i)
    then ((key, state) ∷ left, removed)
    else if not (ltb state.last_seen_ns cutoff)
    then ((key, state) ∷ left, removed)
    else if removes i
    then (left, suc removed)
    else ((key, state) ∷ left, removed)

-- The number that is printed, and the map; the outer `none` is the return value 1.
unfoldable pub gc_flows :
    (looks removes : ℕ → Bool)
    → (clock : Option (ℕ × ℕ)) → (idle_seconds : ℕ) → Bpf
    → Option (ℕ × Bpf)
gc_flows looks removes clock idle_seconds bpf =
    if not (bpf.maps ca_flows) then none else elim clock [
      | none ↦ none
      | some (seconds, nanoseconds) ↦
          let (left, removed) =
            sweep_flows looks removes
              (idle_cutoff (u64 (seconds * second_ns + nanoseconds)) idle_seconds) 0 bpf.flows in
          some (removed, record bpf { flows = left })
    ]
