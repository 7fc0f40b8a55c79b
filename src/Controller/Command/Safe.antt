-- ===== src/Controller/Command/Safe.antt =====
-- src/client-access-bpfctl.c: the exit codes, the lock, and what an unload leaves.
use client_access.Prelude.{
  ℕ, ◌≤◌, ◌≡◌, ◌≢◌, refl, Bool, true, false, not, ◌||◌, Option, none, some, List, [], ◌∷◌, ltb,
  if◌then◌else◌, map, ◌⊎◌, inl, inr, arith, Bool-cases, Option-cases,
}
use client_access.Tc.{Name, tc_action, tc_prune}
use client_access.Controller.{Bpf, is_known, pin_of, detach_all, object_load}
use client_access.Controller.Runtime.{
  backend_disable, backend_disable_unlocked, gc_flows, print_generations,
}
use client_access.Controller.Health.{verify_health, print_status}
use client_access.Controller.Command.{
  World, Argument, Verb, ensure, load, disable, unload, attach, detach, prune, sync, generations,
  health, status, gc, unknown, no_verb, code, answer_code, coded, with_filters, unload_backend,
  run_health, run_gc, main_gc, main_health, main_tc, without_arguments, parse_u32_argument, main,
}

-- A command is refused and does nothing, or ends with 0 or 1; without the lock it does nothing.
abbrev pub IsSafe : World → Bpf → ℕ × Bpf → Type 0
IsSafe world before out =
    ((out.0 ≡ 2) × (out.1 ≡ before) ⊎ (out.0 ≤ 1))
    × (world.locks ≡ false → (out.1 ≡ before) × (out.0 ≢ 0))

code-le : (ok : Bool) → code ok ≤ 1
code-le true = omega arith
code-le false = omega arith

answer_code-le : {A : Type 0} → (answer : Option A) → answer_code answer ≤ 1
answer_code-le none = omega arith
answer_code-le (some a) = omega arith

refused-IsSafe : (world : World) (bpf : Bpf) → IsSafe world bpf (2, bpf)
refused-IsSafe world bpf = (inl (refl, refl), λ locked. (refl, λ e. absurd (ground (arith, e))))

-- Under the lock, an operation may do anything, with 0 or 1.
with_lock-IsSafe :
    (world : World) (out : ℕ × Bpf) (bpf : Bpf)
    → out.0 ≤ 1
    → IsSafe world bpf (if not world.locks then (1, bpf) else out)
with_lock-IsSafe world out bpf small = elim (Bool-cases world.locks) [
  | inl held ↦ rw held (inr small, λ locked. absurd (ground (arith, held)))
  | inr busy ↦ rw busy (inr (omega arith), λ locked. (refl, λ e. absurd (ground (arith, e))))
]

without_arguments-IsSafe :
    (world : World) (rest : List Argument) (out : ℕ × Bpf) (bpf : Bpf)
    → IsSafe world bpf out
    → IsSafe world bpf (without_arguments rest out bpf)
without_arguments-IsSafe world [] out bpf safe = safe
without_arguments-IsSafe world (a ∷ rest) out bpf safe = refused-IsSafe world bpf

backend_disable-IsSafe :
    (world : World) (bpf : Bpf)
    → IsSafe world bpf (coded (backend_disable world.locks world.config_calls bpf))
unfolding backend_disable
backend_disable-IsSafe world bpf = elim (Bool-cases world.locks) [
  | inl held ↦ rw (held, backend_disable) (inr (code-le _), λ locked. absurd (ground (arith, held)))
  | inr busy ↦
      rw (busy, backend_disable)
        (inr (omega arith), λ locked. (refl, λ e. absurd (ground (arith, e))))
]

unload_backend-le : (world : World) (bpf : Bpf) → (unload_backend world bpf).0 ≤ 1
unfolding unload_backend
unload_backend-le world bpf =
    elim (Bool-cases (backend_disable_unlocked world.config_calls bpf).0) [
      | inr on ↦ rw (on, unload_backend) (omega arith)
      | inl off ↦
          elim (Bool-cases
            (detach_all world.system (backend_disable_unlocked world.config_calls bpf).1).0) [
              | inr stuck ↦ rw (off, stuck, unload_backend) (omega arith)
              | inl free ↦ rw (off, free, unload_backend) (omega arith)
            ]
    ]

run_health-le :
    (world : World) (policy classifier : ℕ) (names : List Name) (bpf : Bpf)
    → (run_health world policy classifier names bpf).0 ≤ 1
unfolding run_health
run_health-le world policy classifier names bpf =
    elim (Bool-cases (verify_health world.system policy classifier names bpf)) [
      | inr ill ↦ rw (ill, run_health) (omega arith)
      | inl well ↦ rw (well, run_health) (answer_code-le (print_status world.maps bpf))
    ]

run_gc-le : (world : World) (idle : ℕ) (bpf : Bpf) → (run_gc world idle bpf).0 ≤ 1
unfolding run_gc
run_gc-le world idle bpf =
    elim (Option-cases (gc_flows world.looks world.removes world.clock idle bpf)) [
      | inl failure ↦ rw (failure, run_gc) (omega arith)
      | inr (out, swept) ↦ rw (swept, run_gc) (omega arith)
    ]

main_gc-IsSafe :
    (world : World) (rest : List Argument) (bpf : Bpf) → IsSafe world bpf (main_gc world rest bpf)
unfolding main_gc
main_gc-IsSafe world [] bpf =
    with_lock-IsSafe world (run_gc world 300 bpf) bpf (run_gc-le world 300 bpf)
main_gc-IsSafe world (a ∷ []) bpf =
    elim (Bool-cases (not a.in_range || (not a.at_end || (ltb a.value 1 || ltb 86400 a.value)))) [
      | inl bad ↦ rw (bad, main_gc) (refused-IsSafe world bpf)
      | inr fine ↦
          rw (fine, main_gc)
            (with_lock-IsSafe world (run_gc world a.value bpf) bpf (run_gc-le world a.value bpf))
    ]
main_gc-IsSafe world (a ∷ b ∷ rest) bpf = refused-IsSafe world bpf

main_health-IsSafe :
    (world : World) (rest : List Argument) (bpf : Bpf)
    → IsSafe world bpf (main_health world rest bpf)
unfolding main_health
main_health-IsSafe world [] bpf = refused-IsSafe world bpf
main_health-IsSafe world (a ∷ []) bpf = refused-IsSafe world bpf
main_health-IsSafe world (a ∷ b ∷ []) bpf = refused-IsSafe world bpf
main_health-IsSafe world (a ∷ b ∷ c ∷ rest) bpf = elim (Option-cases (parse_u32_argument a)) [
  | inl bad ↦ rw (bad, main_health) (refused-IsSafe world bpf)
  | inr (policy, first) ↦ elim (Option-cases (parse_u32_argument b)) [
    | inl bad ↦ rw (first, bad, main_health) (refused-IsSafe world bpf)
    | inr (classifier, second) ↦
        let names = map (λ x. x.text) (c ∷ rest) in
        rw (first, second, main_health)
          (with_lock-IsSafe world (run_health world policy classifier names bpf) bpf
            (run_health-le world policy classifier names bpf))
  ]
]

main_tc-IsSafe :
    (world : World) (to_attach : Bool) (rest : List Argument) (bpf : Bpf)
    → IsSafe world bpf (main_tc world to_attach rest bpf)
main_tc-IsSafe world to_attach [] bpf = refused-IsSafe world bpf
main_tc-IsSafe world to_attach (a ∷ []) bpf =
    let out =
      tc_action world.system.calls world.raced (pin_of world.system bpf) (world.system.index a.text)
        to_attach bpf.filters in
    with_lock-IsSafe world (with_filters bpf out) bpf (code-le out.0)
main_tc-IsSafe world to_attach (a ∷ b ∷ rest) bpf = refused-IsSafe world bpf

-- Every command is refused with 2 and does nothing, or ends with 0 or 1; and where the lock cannot
-- be had it does nothing and does not report success.
pub main-IsSafe :
    (world : World) (verb : Verb) (rest : List Argument) (bpf : Bpf)
    → IsSafe world bpf (main world verb rest bpf)
unfolding main
main-IsSafe world ensure rest bpf =
    let out = object_load world.system world.object false bpf in
    with_lock-IsSafe world (coded out) bpf (code-le out.0)
main-IsSafe world load rest bpf =
    let out = object_load world.system world.object true bpf in
    with_lock-IsSafe world (coded out) bpf (code-le out.0)
main-IsSafe world disable rest bpf =
    without_arguments-IsSafe world rest _ bpf (backend_disable-IsSafe world bpf)
main-IsSafe world unload rest bpf =
    with_lock-IsSafe world (unload_backend world bpf) bpf (unload_backend-le world bpf)
main-IsSafe world attach rest bpf = main_tc-IsSafe world true rest bpf
main-IsSafe world detach rest bpf = main_tc-IsSafe world false rest bpf
main-IsSafe world prune rest bpf =
    let out =
      tc_prune world.system.calls (is_known world.system) (pin_of world.system bpf)
        (map (λ x. x.text) rest) world.system.interfaces bpf.filters in
    with_lock-IsSafe world (with_filters bpf out) bpf (code-le out.0)
main-IsSafe world sync rest bpf =
    without_arguments-IsSafe world rest _ bpf
      (with_lock-IsSafe world (coded (world.sync bpf)) bpf (code-le (world.sync bpf).0))
main-IsSafe world generations rest bpf =
    let answer = print_generations bpf in
    without_arguments-IsSafe world rest _ bpf
      (with_lock-IsSafe world (answer_code answer, bpf) bpf (answer_code-le answer))
main-IsSafe world health rest bpf = main_health-IsSafe world rest bpf
main-IsSafe world status rest bpf =
    let answer = print_status world.maps bpf in
    without_arguments-IsSafe world rest _ bpf
      (with_lock-IsSafe world (answer_code answer, bpf) bpf (answer_code-le answer))
main-IsSafe world gc rest bpf = main_gc-IsSafe world rest bpf
main-IsSafe world unknown rest bpf = refused-IsSafe world bpf
main-IsSafe world no_verb rest bpf = refused-IsSafe world bpf
