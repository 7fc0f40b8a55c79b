-- ===== src/Snapshot/Examples.antt =====
-- The theorems on the snapshot applied to an input of four lines, and a test of the parser.
use client_access.Prelude.{
  ◌==◌, ◌&&◌, if◌then◌else◌, ◌<◌, ◌<◌, In, ◌^◌, ℕ, ◌≡◌, refl, Bool, true, false, none, some, List,
  [], ◌∷◌, arith,
}
use native.Mathlib.Decide.{ℕ_discrete}
use mathlib.Core.List.{List-discrete}
use client_access.Abi.{Config, MacKey, PolicyKey, ClassHint, PortKey, LpmKey}
use client_access.Snapshot.Prefix.{Family, Libc, parse_prefix, canonicalize_prefix}
use client_access.Snapshot.Prefix.Canonical.{IsCut, canonicalize_prefix-IsCut}
use client_access.Snapshot.Line.{
  ok, Snapshot, Line, HintFields, parse_line, append, parse_hint, parse_prefix_line,
  parse_port_line, parse_subject_line, parse_policy_line, parse_snapshot, empty_snapshot,
  config_line, subject_line, port_line, prefix4_line, policy_line, skipped,
}
use client_access.Snapshot.Line.Valid.{IsValid, IsConfig}
use client_access.Snapshot.Line.Valid.Accepted.{parse_snapshot-IsValid}
use client_access.Snapshot.Table.Listed.{listed}
use client_access.Datapath.State.{Slot}
use client_access.Snapshot.Sync.{
  Tables, SlotMaps, World, Env, current_config, other_slot, slot_of, snapshot_sync,
}
use client_access.Snapshot.Sync.Slot.{Fits}
use client_access.Snapshot.Sync.Publication.{Atomic, snapshot_sync-Atomic}

-- A C library that reads every prefix as 10.1.2.3/8.
abbrev libc : Libc
libc = record {
  strtoul = λ text. record { value = 8; errno = false; at_end = true };
  inet_pton = λ family text. some (10 ∷ 1 ∷ 2 ∷ 3 ∷ []);
}

abbrev config : Config
config = record {
  enabled = 1;
  app_enforcement_enabled = 1;
  active_slot = 0;
  app_policy_generation = 2;
  classifier_generation = 3;
  unknown_subject_app_verdict = 0;
  provisional_app_verdict = 0;
  max_packets_inspected = 1;
  max_bytes_examined = 4096;
  max_classification_age_ms = 1000;
  max_pending_entries = 4;
  max_new_classifications_per_second = 100;
  per_subject_new_classification_rate = 10;
}

abbrev exact_seven : HintFields
exact_seven = record { class_id = 7; category_id = 0; kind = 1 }

abbrev lines : List (Line × Bool)
lines =
    (skipped, true)
    ∷ (config_line (some config), true)
    ∷ (subject_line (some (some (2 ∷ 0 ∷ 0 ∷ 0 ∷ 0 ∷ 1 ∷ []), 5)), true)
    ∷ (port_line (some (6, 443, exact_seven)), true)
    ∷ (prefix4_line (some (49 ∷ 47 ∷ 56 ∷ [], exact_seven)), true)
    ∷ (policy_line (some (5, 7, 1)), true)
    ∷ []

abbrev hint : ClassHint
hint = record { class_id = 7; category_id = 0; kind = 1 }

abbrev accepted : Snapshot
accepted = record {
  config = config;
  have_config = true;
  subjects = (2 ∷ 0 ∷ 0 ∷ 0 ∷ 0 ∷ 1 ∷ [], 5) ∷ [];
  policies = (record { subject_id = 5; class_id = 7 }, 1) ∷ [];
  ports = (record { ip_proto = 6; dst_port = 443 }, hint) ∷ [];
  ipv4 = (record { prefixlen = 8; addr = 10 ∷ 0 ∷ 0 ∷ 0 ∷ [] }, hint) ∷ [];
  ipv6 = [];
}

parse_snapshot_accepts : parse_snapshot libc lines empty_snapshot ≡ ok accepted
unfolding parse_snapshot parse_line append parse_hint parse_prefix_line parse_port_line
    parse_subject_line parse_policy_line parse_prefix canonicalize_prefix
parse_snapshot_accepts = refl

parse_snapshot-IsValid_example : IsValid accepted × IsConfig config
parse_snapshot-IsValid_example = parse_snapshot-IsValid libc lines accepted parse_snapshot_accepts

PolicyKey-discrete : Discrete PolicyKey
PolicyKey-discrete = hlevel (ℕ_discrete)

PortKey-discrete : Discrete PortKey
PortKey-discrete = hlevel (ℕ_discrete)

LpmKey-discrete : Discrete LpmKey
LpmKey-discrete = hlevel (ℕ_discrete, List-discrete)

MacKey-discrete : Discrete MacKey
MacKey-discrete = hlevel (ℕ_discrete, List-discrete)

abbrev tables : Tables
tables = record {
  Rate = ℕ;
  subject = listed MacKey-discrete;
  policy = listed PolicyKey-discrete;
  port = listed PortKey-discrete;
  ipv4 = listed LpmKey-discrete;
  ipv6 = listed LpmKey-discrete;
  rate = listed ℕ_discrete;
}

abbrev bare : SlotMaps tables
bare = record { subject = []; policy = []; port = []; ipv4 = []; ipv6 = [] }

-- The inactive slot still has the subject of an older snapshot.
abbrev world : World tables
world = record {
  config = none;
  slot_a = bare;
  slot_b = record bare { subject = (1 ∷ 1 ∷ 1 ∷ 1 ∷ 1 ∷ 1 ∷ [], 9) ∷ [] };
  rates = (5, 0) ∷ [];
}

abbrev working : Env
working = record {
  locked = true;
  config_opens = true;
  config_read = true;
  slot_opens = true;
  rates_open = true;
  publishes = true;
}

world-Fits : Fits 2 (slot_of (other_slot (current_config world.config).active_slot) world)
world-Fits = record {
  subject = omega arith;
  policy = omega arith;
  port = omega arith;
  ipv4 = omega arith;
  ipv6 = omega arith;
}

snapshot_sync-Atomic_example :
    (done : Bool) × (after : World tables) × (snapshot_sync working libc 2 lines world
      ≡ some (done, after))
    × Atomic libc lines world done after
snapshot_sync-Atomic_example =
    snapshot_sync-Atomic working libc 2 lines world world-Fits (omega arith)

In-four : (b : ℕ) → In b (10 ∷ 1 ∷ 2 ∷ 3 ∷ []) → b < 2 ^ 8
In-four b h = ground arith

canonicalize_prefix-IsCut_example :
    IsCut Family.inet 12
      (10 ∷ 1 ∷ 2 ∷ 3 ∷ [])
      (canonicalize_prefix Family.inet (10 ∷ 1 ∷ 2 ∷ 3 ∷ []) 12)
    × (canonicalize_prefix Family.inet (canonicalize_prefix Family.inet (10 ∷ 1 ∷ 2 ∷ 3 ∷ []) 12) 12
        ≡ canonicalize_prefix Family.inet (10 ∷ 1 ∷ 2 ∷ 3 ∷ []) 12)
canonicalize_prefix-IsCut_example =
    canonicalize_prefix-IsCut Family.inet (10 ∷ 1 ∷ 2 ∷ 3 ∷ []) 12 (refl, In-four) (omega arith)

abbrev named : Config
named = record config { active_slot = 1 }

abbrev after : World tables
after = record {
  config = some named;
  slot_a = bare;
  slot_b = record {
    subject = accepted.subjects;
    policy = accepted.policies;
    port = accepted.ports;
    ipv4 = accepted.ipv4;
    ipv6 = [];
  };
  rates = [];
}

abbrev fresh : World tables
fresh = record { config = none; slot_a = bare; slot_b = bare; rates = [] }

abbrev reader : Slot
reader = record {
  subject = λ mac. none;
  policy = λ k. if k.subject_id == 5 && k.class_id == 7 then some 1 else none;
  port = λ k. none;
  ipv4 = λ k. none;
  ipv6 = λ k. none;
}
