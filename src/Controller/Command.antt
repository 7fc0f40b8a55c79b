-- ===== src/Controller/Command.antt =====
-- src/client-access-bpfctl.c: `main`, with the lock that every command takes. `sync` is the command
-- of Snapshot/Sync, here a function of the pins.
pub mod Safe
pub mod Unload
use client_access.Prelude.{
  ℕ, Bool, true, false, not, ◌&&◌, ◌||◌, Option, none, some, List, [], ◌∷◌, ltb, if◌then◌else◌, map,
}
use client_access.Prelude.Word.{u32}
use client_access.Tc.{Name, tc_prune, tc_action}
use client_access.Controller.{
  Bpf, System, Object, is_known, pin_of, detach_all, object_unlink, object_load,
}
use client_access.Controller.Runtime.{
  ConfigCalls, backend_disable_unlocked, backend_disable, print_generations, gc_flows,
}
use client_access.Controller.Health.{StatusMaps, verify_health, print_status}

-- An argument: its text, and what `strtoul` reads of it: the value, `!errno`, `!*end`.
pub record Argument : Type 0 where
  pub text : Name
  pub value : ℕ
  pub in_range : Bool
  pub at_end : Bool

-- What the commands meet.
pub record World : Type 0 where
  pub locks : Bool
  pub system : System
  pub object : Object
  pub config_calls : ConfigCalls
  pub raced : Option ℕ
  pub sync : Bpf → Bool × Bpf
  pub maps : StatusMaps
  pub looks : ℕ → Bool
  pub removes : ℕ → Bool
  pub clock : Option (ℕ × ℕ)

pub data Verb : Type 0 where
  ensure : Verb
  load : Verb
  disable : Verb
  unload : Verb
  attach : Verb
  detach : Verb
  prune : Verb
  sync : Verb
  generations : Verb
  health : Verb
  status : Verb
  gc : Verb
  unknown : Verb
  -- `argc < 2`
  no_verb : Verb

unfoldable pub parse_u32_argument : Argument → Option ℕ
parse_u32_argument a =
    if not a.in_range || (not a.at_end || ltb 4294967295 a.value) then none else some (u32 a.value)

-- A return value.
abbrev pub code : Bool → ℕ
code ok = if ok then 0 else 1

abbrev pub answer_code : {A : Type 0} → Option A → ℕ
answer_code none = 1
answer_code (some a) = 0

-- An operation under the lock: 1 where the lock cannot be had.
abbrev pub with_lock : World → (Bpf → ℕ × Bpf) → Bpf → ℕ × Bpf
with_lock world operation bpf = if not world.locks then (1, bpf) else operation bpf

abbrev pub coded : Bool × Bpf → ℕ × Bpf
coded out = (code out.0, out.1)

abbrev pub with_filters : Bpf → Bool × (ℕ → ℕ × ℕ → Option ℕ) → ℕ × Bpf
with_filters bpf out = (code out.0, record bpf { filters = out.1 })

-- `unload_backend`, under the lock
unfoldable pub unload_backend : World → Bpf → ℕ × Bpf
unload_backend world bpf =
    let (disabled, quiet) = backend_disable_unlocked world.config_calls bpf in
    if not disabled
    then (1, quiet)
    else let (detached, bare) = detach_all world.system quiet in
      if not detached then (1, bare) else (0, object_unlink bare)

-- `health_with_lock`, under the lock
unfoldable pub run_health : World → (policy classifier : ℕ) → List Name → Bpf → ℕ × Bpf
run_health world policy classifier names bpf =
    if not (verify_health world.system policy classifier names bpf)
    then (1, bpf)
    else (answer_code (print_status world.maps bpf), bpf)

unfoldable pub run_gc : World → (idle : ℕ) → Bpf → ℕ × Bpf
run_gc world idle bpf = elim (gc_flows world.looks world.removes world.clock idle bpf) [
  | none ↦ (1, bpf)
  | some (removed, after) ↦ (0, after)
]

abbrev pub default_idle : ℕ
default_idle = 300

unfoldable pub main_gc : World → List Argument → Bpf → ℕ × Bpf
main_gc world [] bpf = with_lock world (run_gc world default_idle) bpf
main_gc world (a ∷ []) bpf =
    if not a.in_range || (not a.at_end || (ltb a.value 1 || ltb 86400 a.value))
    then (2, bpf)
    else with_lock world (run_gc world a.value) bpf
main_gc world (a ∷ b ∷ rest) bpf = (2, bpf)

unfoldable pub main_health : World → List Argument → Bpf → ℕ × Bpf
main_health world [] bpf = (2, bpf)
main_health world (a ∷ []) bpf = (2, bpf)
main_health world (a ∷ b ∷ []) bpf = (2, bpf)
main_health world (a ∷ b ∷ c ∷ rest) bpf = elim (parse_u32_argument a) [
  | none ↦ (2, bpf)
  | some policy ↦ elim (parse_u32_argument b) [
    | none ↦ (2, bpf)
    | some classifier ↦
        with_lock world (run_health world policy classifier (map (λ x. x.text) (c ∷ rest))) bpf
  ]
]

-- `attach` and `detach` with one interface
abbrev pub main_tc : World → (to_attach : Bool) → List Argument → Bpf → ℕ × Bpf
main_tc world to_attach [] bpf = (2, bpf)
main_tc world to_attach (a ∷ []) bpf =
    with_lock world
      (λ b. with_filters b (
        tc_action world.system.calls world.raced (pin_of world.system b) (world.system.index a.text)
          to_attach b.filters))
      bpf
main_tc world to_attach (a ∷ b ∷ rest) bpf = (2, bpf)

-- A command that takes no argument.
abbrev pub without_arguments : List Argument → ℕ × Bpf → Bpf → ℕ × Bpf
without_arguments [] out bpf = out
without_arguments (a ∷ rest) out bpf = (2, bpf)

-- The exit code and the pins after the command.
unfoldable pub main : World → Verb → List Argument → Bpf → ℕ × Bpf
main world ensure rest bpf =
    with_lock world (λ b. coded (object_load world.system world.object false b)) bpf
main world load rest bpf =
    with_lock world (λ b. coded (object_load world.system world.object true b)) bpf
main world disable rest bpf =
    without_arguments rest (coded (backend_disable world.locks world.config_calls bpf)) bpf
main world unload rest bpf = with_lock world (unload_backend world) bpf
main world attach rest bpf = main_tc world true rest bpf
main world detach rest bpf = main_tc world false rest bpf
main world prune rest bpf =
    with_lock world
      (λ b. with_filters b (
        tc_prune world.system.calls (is_known world.system) (pin_of world.system b)
          (map (λ x. x.text) rest) world.system.interfaces b.filters))
      bpf
main world sync rest bpf =
    without_arguments rest (with_lock world (λ b. coded (world.sync b)) bpf) bpf
main world generations rest bpf =
    without_arguments rest (with_lock world (λ b. (answer_code (print_generations b), b)) bpf) bpf
main world health rest bpf = main_health world rest bpf
main world status rest bpf =
    without_arguments rest (with_lock world (λ b. (answer_code (print_status world.maps b), b)) bpf)
      bpf
main world gc rest bpf = main_gc world rest bpf
main world unknown rest bpf = (2, bpf)
main world no_verb rest bpf = (2, bpf)
