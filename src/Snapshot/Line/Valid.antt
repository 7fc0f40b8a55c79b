-- ===== src/Snapshot/Line/Valid.antt =====
-- src/bpf-snapshot.c, `parse_snapshot`: what an accepted snapshot is.
pub mod Entry
pub mod Accepted
use client_access.Prelude.{
  ℕ, suc, ◌+◌, ◌||◌, ◌^◌, ◌≤◌, ◌<◌, ◌≡◌, ◌≢◌, ◌∙◌, sym, ap, Bool, true, false, Option, none, some,
  List, [], ◌∷◌, ◌++◌, ◌⊎◌, inl, inr, refl, arith, Option-cases, Bool-cases, In, In-snoc, length,
  length-append, ◌==◌, ltb, leb,
}
use client_access.Abi.{
  Config, ClassHint, LpmKey, PortKey, PolicyKey, MacKey, max_subjects, max_policy_entries,
  max_flows, max_port_hints, max_ipv4_hints, max_ipv6_hints,
}
use client_access.Snapshot.Prefix.{
  Family, Libc, prefix_maximum, parse_prefix, canonicalize_prefix, Text,
}
use client_access.Snapshot.Line.{
  Result, Error, ok, err, e2big, enomem, einval, Snapshot, Line, HintFields, append, parse_hint,
  refuses_config, parse_prefix_line, parse_port_line, parse_subject_line, parse_policy_line, update,
  parse_line, parse_snapshot, skipped, config_line, subject_line, port_line, prefix4_line,
  prefix6_line, policy_line, unknown_line,
}
use mathlib.Core.Path.{subst}

-- An unclassified hint is class 1 with no category; an exact one has a class above 1; that of a
-- category names the category as its class. The fields are 16 bits wide.
abbrev pub IsHint : ClassHint → Type 0
IsHint h =
    ((h.kind ≡ 3) × (h.class_id ≡ 1) × (h.category_id ≡ 0))
    ⊎ ((1 < h.class_id)
        × (h.class_id < 2 ^ 16)
        × (h.category_id < 2 ^ 16)
        × ((h.kind ≡ 1) ⊎ ((h.kind ≡ 2) × (h.category_id ≡ h.class_id))))

pub record IsConfig (c : Config) : Type 0 where
  pub enabled : c.enabled ≤ 1
  pub enforcement : c.app_enforcement_enabled ≤ c.enabled
  pub unknown : c.unknown_subject_app_verdict ≤ 1
  pub provisional : c.provisional_app_verdict ≤ 1
  pub packets : c.max_packets_inspected ≡ 1
  pub bytes : (64 ≤ c.max_bytes_examined) × (c.max_bytes_examined ≤ 8192)
  pub age : (1 ≤ c.max_classification_age_ms) × (c.max_classification_age_ms ≤ 10000)
  pub pending : (1 ≤ c.max_pending_entries) × (c.max_pending_entries ≤ max_flows)
  pub rate :
      (1 ≤ c.max_new_classifications_per_second) × (c.max_new_classifications_per_second ≤ 100000)
  pub subject_rate :
      (1 ≤ c.per_subject_new_classification_rate) × (c.per_subject_new_classification_rate ≤ 100000)

abbrev pub IsSubject : MacKey × ℕ → Type 0
IsSubject e = e.1 ≢ 0

abbrev pub IsPort : PortKey × ClassHint → Type 0
IsPort e =
    ((e.0.ip_proto ≡ 6) ⊎ (e.0.ip_proto ≡ 17))
    × (0 < e.0.dst_port)
    × (e.0.dst_port < 2 ^ 16)
    × IsHint e.1

-- The prefix is no longer than the address, and has been cut to its length.
abbrev pub IsPrefix : Family → LpmKey × ClassHint → Type 0
IsPrefix family e =
    (e.0.prefixlen ≤ prefix_maximum family)
    × ((address : List ℕ) × (e.0.addr ≡ canonicalize_prefix family address e.0.prefixlen))
    × IsHint e.1

abbrev pub IsPolicy : PolicyKey × ℕ → Type 0
IsPolicy e = (e.0.subject_id ≢ 0) × (e.0.class_id < 2 ^ 16) × (e.1 ≤ 1)

-- At most so many entries, each with the property.
pub record Table {A : Type 0} (limit : ℕ) (P : A → Type 0) (items : List A) : Type 0 where
  pub count : length items ≤ limit
  pub each : (a : A) → In a items → P a

pub record IsValid (s : Snapshot) : Type 0 where
  pub config : s.have_config ≡ true → IsConfig s.config
  pub subjects : Table max_subjects IsSubject s.subjects
  pub policies : Table max_policy_entries IsPolicy s.policies
  pub ports : Table max_port_hints IsPort s.ports
  pub ipv4 : Table max_ipv4_hints (IsPrefix Family.inet) s.ipv4
  pub ipv6 : Table max_ipv6_hints (IsPrefix Family.inet6) s.ipv6
