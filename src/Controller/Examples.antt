-- ===== src/Controller/Examples.antt =====
-- The theorems on the controller applied to a healthy system of one interface.
use client_access.Prelude.{
  ℕ, ◌+◌, ◌*◌, ◌≤◌, ◌≡◌, ◌⊎◌, refl, true, false, ◌&&◌, Option, none, some, List, [], ◌∷◌, ◌==◌,
  if◌then◌else◌, In,
}
use client_access.Prelude.Word.{u64}
use client_access.Abi.{FlowKey, FlowState, max_subjects}
use client_access.Snapshot.Line.{zero_config}
use client_access.Tc.{
  owned, same_coordinate, Calls, Name, query, tc_prune, detach_interfaces, detach_at, detach,
}
use client_access.Controller.{Bpf, System, Object, MapName, object_unlink, object_load, detach_all}
use client_access.Controller.Loading.{IsDetached, object_load-IsDetached}
use client_access.Controller.Runtime.{enoent, gc_flows, backend_disable_unlocked}
use client_access.Controller.Runtime.Sweep.{AllSucceed, Sweeps, gc_flows-Sweeps}
use client_access.Controller.Health.{SlotKeys, is_listed, unique_subjects, count_unique_subjects}
use client_access.Controller.Health.Subjects.{IsUnique, unique_subjects-IsUnique}
use client_access.Controller.Command.{World, unload, unload_backend, main}
use client_access.Controller.Command.Safe.{IsSafe, main-IsSafe}
use client_access.Controller.Command.Unload.{unload_backend-IsDetached}

abbrev working : Calls
working = record {
  query_fails = λ i c. false;
  detach_fails = λ i c. false;
  create_fails = false;
  attach_fails = false;
  requery_fails = false;
}

-- "l" is interface 2.
abbrev interfaces : List (ℕ × Name)
interfaces = (2, 108 ∷ []) ∷ []

abbrev system : System
system = record {
  calls = working;
  index = λ name. some 2;
  interfaces = some interfaces;
  pin_fails = false;
}

abbrev key : FlowKey
key = record {
  subject_id = 7;
  eth_proto = 2048;
  ip_proto = 6;
  src_port = 40000;
  dst_port = 443;
  addr = [];
}

abbrev state : FlowState
state = record {
  first_seen_ns = 1000;
  last_seen_ns = 2000;
  app_policy_generation = 1;
  classifier_generation = 1;
  packets_examined = 1;
  bytes_examined = 60;
  class_id = 5;
  classification_state = 1;
  app_verdict = 1;
  class_kind = 1;
}

-- Program 7 is pinned, and attached at its coordinate.
abbrev bpf : Bpf
bpf = record {
  program = some 7;
  maps = λ name. true;
  schema = some 5;
  config =
      some
        (record zero_config { enabled = 1; app_policy_generation = 3; classifier_generation = 4 });
  flows = (key, state) ∷ [];
  filters = λ i c. if i == 2 && same_coordinate c owned then some 7 else none;
}

abbrev object : Object
object = record {
  makes_root = true;
  opens = true;
  has_program = true;
  loads = true;
  left = λ name. false;
  publishes = true;
  pins = true;
  id = 8;
}

object_load-IsDetached_example :
    ((object_load system object true bpf).1.program ≡ some 7)
    ⊎ IsDetached 7 interfaces (object_load system object true bpf).1
object_load-IsDetached_example =
    object_load-IsDetached system object true bpf 7 interfaces refl refl refl

gc_flows-Sweeps_example :
    (removed : ℕ) × (left : List (FlowKey × FlowState)) × (gc_flows
        (λ i. true)
        (λ i. true)
        (some (3600, 0))
        60
        bpf
      ≡ some (removed, record bpf { flows = left }))
    × Sweeps
        (u64 (3600 * 1000000000 + 0))
        60
        (AllSucceed (λ i. true) (λ i. true))
        bpf.flows
        (left, removed)
gc_flows-Sweeps_example = gc_flows-Sweeps (λ i. true) (λ i. true) 3600 0 60 bpf refl

abbrev subjects : List (Option ℕ)
subjects = some 1 ∷ some 2 ∷ none ∷ some 1 ∷ []

unique_subjects-IsUnique_example :
    IsUnique (unique_subjects subjects [])
    × (count_unique_subjects subjects ≤ max_subjects)
    × ((id : ℕ) → is_listed id (unique_subjects subjects []) ≡ true → In (some id) subjects)
    × ((count_unique_subjects subjects ≡ max_subjects)
        ⊎ ((id : ℕ) → In (some id) subjects → is_listed id (unique_subjects subjects []) ≡ true))
unique_subjects-IsUnique_example = unique_subjects-IsUnique subjects

abbrev slot : SlotKeys
slot = record { subjects = subjects; policies = []; ports = []; ipv4 = []; ipv6 = [] }

abbrev world : World
world = record {
  locks = true;
  system = system;
  object = object;
  config_calls = record { open_error = enoent; lookup_error = enoent; updates = true };
  raced = none;
  sync = λ b. (true, b);
  maps = record {
    slot_a = slot;
    slot_b = slot;
    runtime = 0;
    percpu = λ id. some (1 ∷ 2 ∷ []);
    memory = true;
  };
  looks = λ i. true;
  removes = λ i. true;
  clock = some (3600, 0);
}

main-IsSafe_example : IsSafe world bpf (main world unload [] bpf)
main-IsSafe_example = main-IsSafe world unload [] bpf

bpf_unloaded : (unload_backend world bpf).0 ≡ 0
unfolding unload_backend backend_disable_unlocked detach_all object_unlink tc_prune
    detach_interfaces detach_at detach query
bpf_unloaded = refl

unload_backend-IsDetached_example :
    ((unload_backend world bpf).1.program ≡ none)
    × ((name : MapName) → (unload_backend world bpf).1.maps name ≡ false)
    × IsDetached 7 interfaces (unload_backend world bpf).1
unload_backend-IsDetached_example =
    unload_backend-IsDetached world bpf 7 interfaces refl refl refl bpf_unloaded
