-- ===== src/Snapshot/Line.antt =====
-- src/bpf-snapshot.c, `parse_snapshot` and the helpers that it calls on one line. What the
-- `sscanf` calls deliver for a line is the data of its constructor, `none` if the call assigns
-- fewer fields than the source asks for.
pub mod Valid
use client_access.Prelude.{
  refl, ◌⊎◌, inl, inr, ℕ, ◌+◌, ◌-◌, ◌≤◌, ◌≡◌, Bool, true, false, not, ◌&&◌, ◌||◌, Option, none,
  some, List, [], ◌∷◌, ◌++◌, ltb, leb, ◌==◌, if◌then◌else◌, length, map,
}
use client_access.Prelude.Word.{u8}
use client_access.Abi.{
  Config, MacKey, PolicyKey, ClassHint, PortKey, LpmKey, class_unclassified, kind_exact,
  kind_category, kind_unclassified, max_subjects, max_policy_entries, max_flows, max_port_hints,
  max_ipv4_hints, max_ipv6_hints, verdict_deny,
}
use client_access.Datapath.Parse.{ipproto_tcp, ipproto_udp}
use client_access.Snapshot.Prefix.{Text, Family, Libc, parse_prefix, canonicalize_prefix}

pub data Error : Type 0 where
  einval : Error
  e2big : Error
  enomem : Error

pub data Result (A : Type 0) : Type 0 where
  ok : A → Result A
  err : Error → Result A

-- The arrays with their counts; an entry is a key with its value.
pub record Snapshot : Type 0 where
  pub config : Config
  pub have_config : Bool
  pub subjects : List (MacKey × ℕ)
  pub policies : List (PolicyKey × ℕ)
  pub ports : List (PortKey × ClassHint)
  pub ipv4 : List (LpmKey × ClassHint)
  pub ipv6 : List (LpmKey × ClassHint)

-- `= {}`
abbrev pub zero_config : Config
zero_config = record {
  enabled = 0;
  app_enforcement_enabled = 0;
  active_slot = 0;
  app_policy_generation = 0;
  classifier_generation = 0;
  unknown_subject_app_verdict = 0;
  provisional_app_verdict = 0;
  max_packets_inspected = 0;
  max_bytes_examined = 0;
  max_classification_age_ms = 0;
  max_pending_entries = 0;
  max_new_classifications_per_second = 0;
  per_subject_new_classification_rate = 0;
}

abbrev pub empty_snapshot : Snapshot
empty_snapshot = record {
  config = zero_config;
  have_config = false;
  subjects = [];
  policies = [];
  ports = [];
  ipv4 = [];
  ipv6 = [];
}

-- The three numbers of a class hint, as scanned.
pub record HintFields : Type 0 where
  pub class_id : ℕ
  pub category_id : ℕ
  pub kind : ℕ

-- The fields of a CONFIG line are those of the structure, less the slot.
pub data Line : Type 0 where
  -- a comment, an empty line or a line of blanks
  skipped : Line
  config_line : Option Config → Line
  -- the bytes that `sscanf` reads from the MAC address, and the subject
  subject_line : Option (Option (List ℕ) × ℕ) → Line
  port_line : Option (ℕ × ℕ × HintFields) → Line
  prefix4_line : Option (Text × HintFields) → Line
  prefix6_line : Option (Text × HintFields) → Line
  policy_line : Option (ℕ × ℕ × ℕ) → Line
  unknown_line : Line

abbrev pub uint16_max : ℕ
uint16_max = 65535

-- The six numbers become bytes.
abbrev pub parse_mac : Option (List ℕ) → Option MacKey
parse_mac none = none
parse_mac (some bytes) = some (map u8 bytes)

-- `append_subject`, `append_policy`, `append_port`, `append_ipv4` and `append_ipv6`, which differ
-- in the limit; `memory` says whether `realloc` succeeds.
unfoldable pub append : {A : Type 0} → (memory : Bool) → (limit : ℕ) → List A → A → Result (List A)
append memory limit items entry =
    if leb limit (length items)
    then err e2big
    else if not memory
    then err enomem
    else ok (items ++ (entry ∷ []))

unfoldable pub parse_hint : HintFields → Option ClassHint
parse_hint h =
    if h.kind == kind_unclassified && (h.class_id == class_unclassified && h.category_id == 0)
    then some (record { class_id = h.class_id; category_id = 0; kind = h.kind })
    else if leb h.class_id class_unclassified
        || (ltb uint16_max h.class_id
            || (ltb uint16_max h.category_id
                || (not (h.kind == kind_exact) && not (h.kind == kind_category))))
    then none
    else if h.kind == kind_category && not (h.category_id == h.class_id)
    then none
    else some (record { class_id = h.class_id; category_id = h.category_id; kind = h.kind })

-- The tests on the fields of a CONFIG line, in their order.
abbrev pub refuses_config : Config → Bool
refuses_config c =
    ltb 1 c.enabled
    || (ltb 1 c.app_enforcement_enabled
        || (ltb c.enabled c.app_enforcement_enabled
            || (ltb 1 c.unknown_subject_app_verdict
                || (ltb 1 c.provisional_app_verdict
                    || (not (c.max_packets_inspected == 1)
                        || (ltb c.max_bytes_examined 64
                            || (ltb 8192 c.max_bytes_examined
                                || (ltb c.max_classification_age_ms 1
                                    || (ltb 10000 c.max_classification_age_ms
                                        || (ltb c.max_pending_entries 1
                                            || (ltb max_flows c.max_pending_entries
                                                || (ltb c.max_new_classifications_per_second 1
                                                    || (ltb 100000
                                                          c.max_new_classifications_per_second
                                                        || (ltb
                                                            c.per_subject_new_classification_rate 1
                                                            || ltb 100000
                                                            c.per_subject_new_classification_rate))))))))))))))

-- A PREFIX4 or PREFIX6 line, up to the append.
unfoldable pub parse_prefix_line :
    Libc → Family → Option (Text × HintFields) → Option (LpmKey × ClassHint)
parse_prefix_line libc family none = none
parse_prefix_line libc family (some (text, fields)) = elim (parse_prefix libc text family) [
  | none ↦ none
  | some (address, prefixlen) ↦ elim (parse_hint fields) [
    | none ↦ none
    | some hint ↦ some (
      record { prefixlen = prefixlen; addr = canonicalize_prefix family address prefixlen },
      hint,
    )
  ]
]

unfoldable pub parse_port_line : Option (ℕ × ℕ × HintFields) → Option (PortKey × ClassHint)
parse_port_line none = none
parse_port_line (some (protocol, port, fields)) =
    if not (protocol == ipproto_tcp) && not (protocol == ipproto_udp)
      || (port == 0 || ltb uint16_max port)
    then none
    else elim (parse_hint fields) [
      | none ↦ none
      | some hint ↦ some (record { ip_proto = protocol; dst_port = port }, hint)
    ]

unfoldable pub parse_subject_line : Option (Option (List ℕ) × ℕ) → Option (MacKey × ℕ)
parse_subject_line none = none
parse_subject_line (some (mac, subject_id)) =
    if subject_id == 0
    then none
    else elim (parse_mac mac) [ none ↦ none | some key ↦ some (key, subject_id) ]

unfoldable pub parse_policy_line : Option (ℕ × ℕ × ℕ) → Option (PolicyKey × ℕ)
parse_policy_line none = none
parse_policy_line (some (subject_id, class_id, verdict)) =
    if subject_id == 0 || (ltb uint16_max class_id || ltb verdict_deny verdict)
    then none
    else some (record { subject_id = subject_id; class_id = class_id }, verdict)

abbrev pub update :
    {A : Type 0}
    → (List A → Snapshot)
    → (memory : Bool) → (limit : ℕ) → List A
    → Option A
    → Result Snapshot
update store memory limit items none = err einval
update store memory limit items (some entry) = elim (append memory limit items entry) [
  | ok items' ↦ ok (store items')
  | err e ↦ err e
]

unfoldable pub parse_line : Libc → (memory : Bool) → Snapshot → Line → Result Snapshot
parse_line libc memory s skipped = ok s
parse_line libc memory s (config_line none) = err einval
parse_line libc memory s (config_line (some config)) =
    if s.have_config || refuses_config config
    then err einval
    else ok (record s {
      config = record config { active_slot = s.config.active_slot };
      have_config = true;
    })
parse_line libc memory s (subject_line scanned) =
    update (λ items. record s { subjects = items }) memory max_subjects s.subjects
      (parse_subject_line scanned)
parse_line libc memory s (port_line scanned) =
    update (λ items. record s { ports = items }) memory max_port_hints s.ports
      (parse_port_line scanned)
parse_line libc memory s (prefix4_line scanned) =
    update (λ items. record s { ipv4 = items }) memory max_ipv4_hints s.ipv4
      (parse_prefix_line libc Family.inet scanned)
parse_line libc memory s (prefix6_line scanned) =
    update (λ items. record s { ipv6 = items }) memory max_ipv6_hints s.ipv6
      (parse_prefix_line libc Family.inet6 scanned)
parse_line libc memory s (policy_line scanned) =
    update (λ items. record s { policies = items }) memory max_policy_entries s.policies
      (parse_policy_line scanned)
parse_line libc memory s unknown_line = err einval

-- The loop over the lines, each with the outcome of its `realloc`, and the test after the loop.
unfoldable pub parse_snapshot : Libc → List (Line × Bool) → Snapshot → Result Snapshot
parse_snapshot libc [] s = if s.have_config then ok s else err einval
parse_snapshot libc ((line, memory) ∷ lines) s = elim (parse_line libc memory s line) [
  | ok s' ↦ parse_snapshot libc lines s'
  | err e ↦ err e
]

-- The two results, with the equation.
pub Result-cases :
    {A : Type 0} (r : Result A) → ((e : Error) × (r ≡ err e)) ⊎ ((a : A) × (r ≡ ok a))
Result-cases (ok a) = inr (a, refl)
Result-cases (err e) = inl (e, refl)
