-- ===== src/Controller/Health/Fixed.antt =====
-- src/bpf-health.c: where the health check passes, the commands that set the system up change
-- nothing.
use client_access.Prelude.{ℕ, ◌≡◌, true, some, List}
use client_access.Abi.{Config}
use client_access.Tc.{Name}
use client_access.Controller.{Bpf, System, object_available}
use client_access.Controller.Health.{all_attached, verify_listed}

-- What a passing health check has seen.
abbrev pub IsHealthy : System → ℕ → ℕ → List Name → Bpf → Type 0
IsHealthy system policy_generation classifier_generation names bpf =
    (config : Config) × (id : ℕ) × (object_available system bpf ≡ true)
    × (bpf.config ≡ some config)
    × (bpf.program ≡ some id)
    × (config.app_policy_generation ≡ policy_generation)
    × (config.classifier_generation ≡ classifier_generation)
    × (all_attached system id bpf.filters names ≡ true)
    × (verify_listed system id names system.interfaces bpf.filters ≡ true)
