-- ===== src/Controller.antt =====
-- src/bpf-object.c and src/bpfctl-common.c: the pins of the program and of its maps, and the loading
-- of the object. What is behind the pins is the state; the calls of libbpf and of the kernel that may
-- fail are parameters. A pin that is unlinked is gone, and with it what its map holds.
pub mod Loading
pub mod Runtime
pub mod Health
pub mod Command
pub mod Examples
use client_access.Prelude.{
  ℕ, Bool, true, false, not, ◌&&◌, Option, none, some, List, [], ◌∷◌, ◌==◌, if◌then◌else◌,
}
use client_access.Abi.{Config, FlowKey, FlowState}
use client_access.Snapshot.Line.{zero_config}
use client_access.Tc.{Filters, Calls, Name, Pin, pinned, missing, unavailable, tc_prune}

-- `map_names`
pub data MapName : Type 0 where
  ca_config : MapName
  ca_mark_schema : MapName
  ca_subject_a : MapName
  ca_subject_b : MapName
  ca_policy_a : MapName
  ca_policy_b : MapName
  ca_port_a : MapName
  ca_port_b : MapName
  ca_ipv4_a : MapName
  ca_ipv4_b : MapName
  ca_ipv6_a : MapName
  ca_ipv6_b : MapName
  ca_flows : MapName
  ca_global_rate : MapName
  ca_subject_rates : MapName
  ca_runtime : MapName
  ca_stats : MapName

abbrev pub map_names : List MapName
map_names =
    ca_config ∷ ca_mark_schema ∷ ca_subject_a ∷ ca_subject_b ∷ ca_policy_a ∷ ca_policy_b ∷ ca_port_a
    ∷ ca_port_b ∷ ca_ipv4_a ∷ ca_ipv4_b ∷ ca_ipv6_a ∷ ca_ipv6_b ∷ ca_flows ∷ ca_global_rate
    ∷ ca_subject_rates ∷ ca_runtime ∷ ca_stats ∷ []

abbrev pub schema_version : ℕ
schema_version = 5

-- The id of the pinned program, the maps that are pinned, the schema, the control record and the
-- flows that they hold, and the filters of the interfaces.
pub record Bpf : Type 0 where
  pub program : Option ℕ
  pub maps : MapName → Bool
  pub schema : Option ℕ
  pub config : Option Config
  pub flows : List (FlowKey × FlowState)
  pub filters : Filters

-- What the controller meets: the calls on filters, the names and the list of the interfaces, and
-- whether the pin of the program cannot be opened for another reason than ENOENT.
pub record System : Type 0 where
  pub calls : Calls
  pub index : Name → Option ℕ
  pub interfaces : Option (List (ℕ × Name))
  pub pin_fails : Bool

abbrev pub is_known : System → Name → Bool
is_known system name = elim (system.index name) [ none ↦ false | some ifindex ↦ true ]

abbrev pub pin_in : Option ℕ → Pin
pin_in none = missing
pin_in (some id) = pinned id

-- The pinned program, as `ca_bpf_tc_prune` and `ca_bpf_tc_action` open it.
abbrev pub pin_of : System → Bpf → Pin
pin_of system bpf = if system.pin_fails then unavailable else pin_in bpf.program

abbrev pub all_pinned : (MapName → Bool) → List MapName → Bool
all_pinned maps [] = true
all_pinned maps (name ∷ names) = maps name && all_pinned maps names

abbrev pub is_schema : Option ℕ → Bool
is_schema none = false
is_schema (some schema) = schema == schema_version

abbrev pub is_pinned : System → Option ℕ → Bool
is_pinned system none = false
is_pinned system (some id) = not system.pin_fails

-- `ca_bpf_object_available`
unfoldable pub object_available : System → Bpf → Bool
object_available system bpf =
    is_pinned system bpf.program
    && (bpf.maps ca_mark_schema && (is_schema bpf.schema && all_pinned bpf.maps map_names))

-- `ca_bpf_object_unlink`
unfoldable pub object_unlink : Bpf → Bpf
object_unlink bpf = record bpf {
  program = none;
  maps = λ name. false;
  schema = none;
  config = none;
  flows = [];
}

-- `ca_bpf_tc_detach_all`; `true` is the return value 0
unfoldable pub detach_all : System → Bpf → Bool × Bpf
detach_all system bpf =
    let (ok, filters) =
      tc_prune system.calls (is_known system) (pin_of system bpf) [] system.interfaces
        bpf.filters in
    (ok, record bpf { filters = filters })

-- The calls of `ca_bpf_object_load`, in their order: whether they succeed, the maps that a load that
-- fails leaves pinned, and the id of the loaded program.
pub record Object : Type 0 where
  pub makes_root : Bool
  pub opens : Bool
  pub has_program : Bool
  pub loads : Bool
  pub left : MapName → Bool
  pub publishes : Bool
  pub pins : Bool
  pub id : ℕ

-- The maps of a loaded object are pinned by name, and empty; an array holds zeros.
abbrev pub loaded : Bpf → Bpf
loaded bpf = record bpf {
  maps = λ name. true;
  schema = some 0;
  config = some zero_config;
  flows = [];
}

-- The rest of `ca_bpf_object_load`, once the old pins are gone.
unfoldable pub load_object : Object → Bpf → Bool × Bpf
load_object object bare =
    if not object.opens
    then (false, bare)
    else if not object.has_program
    then (false, bare)
    else if not object.loads
    then (false, record bare { maps = object.left })
    else if not object.publishes
    then (false, object_unlink (loaded bare))
    else if not object.pins
    then (false, object_unlink (record (loaded bare) { schema = some schema_version }))
    else (true, record (loaded bare) { schema = some schema_version; program = some object.id })

unfoldable pub object_load : System → Object → (replace : Bool) → Bpf → Bool × Bpf
object_load system object replace bpf =
    if not replace && object_available system bpf
    then (true, bpf)
    else if not object.makes_root
    then (false, bpf)
    else let (ok, detached) = detach_all system bpf in
      if not ok then (false, detached) else load_object object (object_unlink detached)
