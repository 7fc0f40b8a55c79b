-- ===== src/Snapshot/Line/Valid/Accepted.antt =====
-- src/bpf-snapshot.c, `parse_snapshot`: every accepted snapshot is valid.
use client_access.Prelude.{
  ℕ, ◌≡◌, ◌∙◌, sym, ap, Bool, true, none, some, List, [], ◌∷◌, inl, inr, arith, Bool-cases,
}
use client_access.Abi.{
  max_subjects, max_policy_entries, max_port_hints, max_ipv4_hints, max_ipv6_hints,
}
use client_access.Snapshot.Prefix.{Family, Libc}
use client_access.Snapshot.Line.{
  ok, Snapshot, Line, parse_prefix_line, parse_port_line, parse_subject_line, parse_policy_line,
  parse_line, parse_snapshot, skipped, config_line, subject_line, port_line, prefix4_line,
  prefix6_line, policy_line, unknown_line,
}
use mathlib.Core.Path.{subst}
use client_access.Snapshot.Line.Valid.{
  IsConfig, IsSubject, IsPort, IsPrefix, IsPolicy, Table, IsValid,
}
use client_access.Snapshot.Line.Valid.Entry.{
  update-ok, parse_subject_line-IsSubject, parse_port_line-IsPort, parse_prefix_line-IsPrefix,
  parse_policy_line-IsPolicy, refuses_config-IsConfig, config_line-ok,
}
use client_access.Snapshot.Line.{Result-cases, empty_snapshot}

parse_line-IsValid :
    (libc : Libc) (memory : Bool) (s s' : Snapshot) (line : Line)
    → IsValid s
    → parse_line libc memory s line ≡ ok s'
    → IsValid s'
unfolding parse_line
parse_line-IsValid libc memory s s' skipped v e = subst IsValid (ground arith) v
parse_line-IsValid libc memory s s' (config_line none) v e = absurd (ground arith)
parse_line-IsValid libc memory s s' (config_line (some config)) v e =
    let (fresh, same) = config_line-ok libc memory s s' config e in
    subst IsValid (sym same) (record {
      config =
          λ _. refuses_config-IsConfig (record config { active_slot = s.config.active_slot }) fresh;
      subjects = v.subjects;
      policies = v.policies;
      ports = v.ports;
      ipv4 = v.ipv4;
      ipv6 = v.ipv6;
    })
parse_line-IsValid libc memory s s' (subject_line l) v e =
    let (items, same, table) =
      update-ok IsSubject _ memory max_subjects s.subjects (parse_subject_line l) s'
        (parse_subject_line-IsSubject l) v.subjects e in
    subst IsValid (sym same) (record {
      config = v.config;
      subjects = table;
      policies = v.policies;
      ports = v.ports;
      ipv4 = v.ipv4;
      ipv6 = v.ipv6;
    })
parse_line-IsValid libc memory s s' (port_line l) v e =
    let (items, same, table) =
      update-ok IsPort _ memory max_port_hints s.ports (parse_port_line l) s'
        (parse_port_line-IsPort l) v.ports e in
    subst IsValid (sym same) (record {
      config = v.config;
      subjects = v.subjects;
      policies = v.policies;
      ports = table;
      ipv4 = v.ipv4;
      ipv6 = v.ipv6;
    })
parse_line-IsValid libc memory s s' (prefix4_line l) v e =
    let (items, same, table) =
      update-ok (IsPrefix Family.inet) _ memory max_ipv4_hints s.ipv4
        (parse_prefix_line libc Family.inet l) s' (parse_prefix_line-IsPrefix libc Family.inet l)
        v.ipv4 e in
    subst IsValid (sym same) (record {
      config = v.config;
      subjects = v.subjects;
      policies = v.policies;
      ports = v.ports;
      ipv4 = table;
      ipv6 = v.ipv6;
    })
parse_line-IsValid libc memory s s' (prefix6_line l) v e =
    let (items, same, table) =
      update-ok (IsPrefix Family.inet6) _ memory max_ipv6_hints s.ipv6
        (parse_prefix_line libc Family.inet6 l) s' (parse_prefix_line-IsPrefix libc Family.inet6 l)
        v.ipv6 e in
    subst IsValid (sym same) (record {
      config = v.config;
      subjects = v.subjects;
      policies = v.policies;
      ports = v.ports;
      ipv4 = v.ipv4;
      ipv6 = table;
    })
parse_line-IsValid libc memory s s' (policy_line l) v e =
    let (items, same, table) =
      update-ok IsPolicy _ memory max_policy_entries s.policies (parse_policy_line l) s'
        (parse_policy_line-IsPolicy l) v.policies e in
    subst IsValid (sym same) (record {
      config = v.config;
      subjects = v.subjects;
      policies = table;
      ports = v.ports;
      ipv4 = v.ipv4;
      ipv6 = v.ipv6;
    })
parse_line-IsValid libc memory s s' unknown_line v e = absurd (ground arith)

parse_snapshot-have_config :
    (libc : Libc) (lines : List (Line × Bool)) (s s' : Snapshot)
    → IsValid s
    → parse_snapshot libc lines s ≡ ok s'
    → IsValid s' × (s'.have_config ≡ true)
unfolding parse_snapshot
parse_snapshot-have_config libc [] s s' v e = elim (Bool-cases s.have_config) [
  | inl there ↦
      let same : s ≡ s' = ground arith in
      (subst IsValid same v, ap (λ x. x.have_config) (sym same) ∙ there)
  | inr missing ↦ absurd (ground arith)
]
parse_snapshot-have_config libc ((line, memory) ∷ lines) s s' v e =
    elim (Result-cases (parse_line libc memory s line)) [
      | inl (error, bad) ↦ absurd (ground arith)
      | inr (next, good) ↦
          parse_snapshot-have_config libc lines next s'
            (parse_line-IsValid libc memory s next line v good) (ground arith)
    ]

empty_table : {A : Type 0} (limit : ℕ) (P : A → Type 0) → Table limit P []
empty_table limit P = record { count = omega arith; each = λ a h. absurd h }

-- From an empty snapshot, an accepted input has a control record with every field in its range,
-- enforcing only if enabled, and no table beyond its map's limit. Every subject and policy entry
-- has a subject other than 0, every port is TCP or UDP and not 0, every prefix is no longer than its
-- address and cut to its length, every verdict allows or denies, and every class hint is
-- well-formed.
pub parse_snapshot-IsValid :
    (libc : Libc) (lines : List (Line × Bool)) (s : Snapshot)
    → parse_snapshot libc lines empty_snapshot ≡ ok s
    → IsValid s × IsConfig s.config
parse_snapshot-IsValid libc lines s e =
    let (valid, there) =
      parse_snapshot-have_config libc lines empty_snapshot s
        (record {
          config = λ h. absurd (ground arith);
          subjects = empty_table max_subjects IsSubject;
          policies = empty_table max_policy_entries IsPolicy;
          ports = empty_table max_port_hints IsPort;
          ipv4 = empty_table max_ipv4_hints (IsPrefix Family.inet);
          ipv6 = empty_table max_ipv6_hints (IsPrefix Family.inet6);
        })
        e in
    (valid, valid.config there)
