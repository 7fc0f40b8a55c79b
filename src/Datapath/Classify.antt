-- ===== src/Datapath/Classify.antt =====
-- src/client-access-bpf.c, `ca_merge_hint` and `ca_classify`: the class of a flow from the hint of
-- its destination prefix and that of its destination port.
pub mod Merge
pub mod Hints
use client_access.Prelude.{
  ℕ, Bool, true, false, ◌&&◌, ◌||◌, Option, none, some, List, ◌==◌, if◌then◌else◌, take, drop,
}
use client_access.Abi.{
  ClassHint, FlowKey, LpmKey, PortKey, kind_none, kind_exact, kind_category, kind_unclassified,
  class_unclassified,
}
use client_access.Datapath.Parse.{eth_p_ip, eth_p_ipv6, ipproto_tcp, ipproto_udp}
use client_access.Datapath.State.{Slot, Stats, stat_inc, stat_classifier_conflicts}

abbrev pub zero_hint : ClassHint
zero_hint = record { class_id = 0; category_id = 0; kind = 0 }

-- The merged hint, and whether the candidate contradicts it (-1 in the source).
unfoldable pub merge_hint : ClassHint → Option ClassHint → ClassHint × Bool
merge_hint result none = (result, false)
merge_hint result (some candidate) =
    if candidate.kind == kind_none
    then (result, false)
    else if candidate.kind == kind_unclassified
    then (result, true)
    else if result.kind == kind_none
    then (candidate, false)
    else if result.kind == candidate.kind
        && (result.class_id == candidate.class_id && result.category_id == candidate.category_id)
    then (result, false)
    else if result.kind == kind_exact
        && (candidate.kind == kind_category && result.category_id == candidate.class_id)
    then (result, false)
    else if result.kind == kind_category
        && (candidate.kind == kind_exact && candidate.category_id == result.class_id)
    then (candidate, false)
    else (result, true)

-- `key->addr.v4.dst` and `key->addr.v6.dst`
abbrev pub v4_dst : FlowKey → List ℕ
v4_dst key = take 4 (drop 4 key.addr)

abbrev pub v6_dst : FlowKey → List ℕ
v6_dst key = take 16 (drop 16 key.addr)

unfoldable pub prefix_hint : Slot → FlowKey → Option ClassHint
prefix_hint slot key =
    if key.eth_proto == eth_p_ip
    then slot.ipv4 (record { prefixlen = 32; addr = v4_dst key })
    else if key.eth_proto == eth_p_ipv6
    then slot.ipv6 (record { prefixlen = 128; addr = v6_dst key })
    else none

unfoldable pub port_hint : Slot → FlowKey → Option ClassHint
port_hint slot key =
    if key.ip_proto == ipproto_tcp || key.ip_proto == ipproto_udp
    then slot.port (record { ip_proto = key.ip_proto; dst_port = key.dst_port })
    else none

-- Both hints merged in the order of the source. Where the source makes no lookup, `none` merges
-- as nothing.
unfoldable pub merge_hints : Option ClassHint → Option ClassHint → ClassHint × Bool
merge_hints prefix port =
    let (after_prefix, prefix_conflict) = merge_hint zero_hint prefix in
    let (result, port_conflict) = merge_hint after_prefix port in
    (result, prefix_conflict || port_conflict)

pub record Class : Type 0 where
  pub class_id : ℕ
  pub class_kind : ℕ

unfoldable pub class_of : ClassHint × Bool → Class
class_of (result, conflict) =
    if conflict
    then record { class_id = class_unclassified; class_kind = kind_none }
    else if result.kind == kind_none
    then record { class_id = class_unclassified; class_kind = kind_none }
    else record { class_id = result.class_id; class_kind = result.kind }

-- `ca_classify`, with the counter of conflicts
unfoldable pub classify : Slot → FlowKey → Stats → Class × Stats
classify slot key stats =
    let merged = merge_hints (prefix_hint slot key) (port_hint slot key) in
    (class_of merged, (if merged.1 then stat_inc stat_classifier_conflicts stats else stats))
