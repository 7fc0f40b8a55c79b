-- ===== src/Sfo/Tuple.antt =====
-- sfo/client-access-sfoctl.c: the original tuple of a conntrack entry against the key of a flow
-- record, and the hash of both. The attributes of an entry are what libnetfilter_conntrack reads
-- of it, `none` for one that is not set; an address is its bytes.
pub mod Hash
use client_access.Prelude.{
  ℕ, ◌*◌, ◌/◌, ◌%◌, ◌^◌, Bool, true, false, not, ◌&&◌, ◌||◌, Option, none, some, List, [], ◌∷◌,
  ◌==◌, if◌then◌else◌, take, drop, same_bytes,
}
use Prim.Native.Nat.{bit_xor}
use client_access.Prelude.Word.{u32}
use client_access.Abi.{FlowKey}
use client_access.Datapath.Parse.{eth_p_ip, eth_p_ipv6, ipproto_tcp, ipproto_udp}
use client_access.Datapath.Classify.{v4_dst, v6_dst}

pub record Conntrack : Type 0 where
  pub l3proto : Option ℕ
  pub l4proto : Option ℕ
  pub port_src : Option ℕ
  pub port_dst : Option ℕ
  pub ipv4_src : Option (List ℕ)
  pub ipv4_dst : Option (List ℕ)
  pub ipv6_src : Option (List ℕ)
  pub ipv6_dst : Option (List ℕ)
  pub status : Option ℕ

abbrev pub af_inet : ℕ
af_inet = 2

abbrev pub af_inet6 : ℕ
af_inet6 = 10

-- `key->addr.v4.src` and `key->addr.v6.src`
abbrev pub v4_src : FlowKey → List ℕ
v4_src key = take 4 key.addr

abbrev pub v6_src : FlowKey → List ℕ
v6_src key = take 16 key.addr

unfoldable pub supported_flow : FlowKey → Bool
supported_flow key =
    (key.eth_proto == eth_p_ip || key.eth_proto == eth_p_ipv6)
    && (key.ip_proto == ipproto_tcp || key.ip_proto == ipproto_udp)

-- `ct_has`
abbrev pub ct_has : {A : Type 0} → Option A → Bool
ct_has none = false
ct_has (some _) = true

-- The value of an attribute; the library gives zero for one that is not set.
abbrev pub number : Option ℕ → ℕ
number none = 0
number (some n) = n

abbrev pub bytes : Option (List ℕ) → List ℕ
bytes none = []
bytes (some b) = b

unfoldable pub hash_bytes : (hash : ℕ) → List ℕ → ℕ
hash_bytes hash [] = hash
hash_bytes hash (b ∷ rest) = hash_bytes (u32 (bit_xor hash b * 16777619)) rest

-- The two bytes of a port in network order.
abbrev pub port_bytes : ℕ → List ℕ
port_bytes port = port / 256 ∷ port % 256 ∷ []

abbrev pub offset_basis : ℕ
offset_basis = 2166136261

-- The calls of `hash_bytes` that both hashes make, in their order.
abbrev pub hash_tuple : (family protocol port_src port_dst : ℕ) → (source destination : List ℕ) → ℕ
hash_tuple family protocol port_src port_dst source destination =
    hash_bytes
      (hash_bytes
        (hash_bytes
          (hash_bytes (hash_bytes (hash_bytes offset_basis (family ∷ [])) (protocol ∷ []))
            (port_bytes port_src))
          (port_bytes port_dst))
        source)
      destination

unfoldable pub candidate_hash : FlowKey → ℕ
candidate_hash key =
    if key.eth_proto == eth_p_ip
    then hash_tuple 4 key.ip_proto key.src_port key.dst_port (v4_src key) (v4_dst key)
    else hash_tuple 6 key.ip_proto key.src_port key.dst_port (v6_src key) (v6_dst key)

unfoldable pub conntrack_hash : Conntrack → ℕ
conntrack_hash ct =
    let protocol = number ct.l4proto in
    if number ct.l3proto == af_inet
    then hash_tuple 4 protocol (number ct.port_src) (number ct.port_dst) (bytes ct.ipv4_src)
        (bytes ct.ipv4_dst)
    else hash_tuple 6 protocol (number ct.port_src) (number ct.port_dst) (bytes ct.ipv6_src)
        (bytes ct.ipv6_dst)

abbrev pub has_tuple : Conntrack → Bool
has_tuple ct =
    ct_has ct.l3proto && (ct_has ct.l4proto && (ct_has ct.port_src && ct_has ct.port_dst))

unfoldable pub tuple_matches : FlowKey → Conntrack → Bool
tuple_matches key ct =
    if not (has_tuple ct)
    then false
    else if not (number ct.l4proto == key.ip_proto)
        || (not (number ct.port_src == key.src_port) || not (number ct.port_dst == key.dst_port))
    then false
    else if key.eth_proto == eth_p_ip
    then number ct.l3proto == af_inet
      && (ct_has ct.ipv4_src
          && (ct_has ct.ipv4_dst
              && (same_bytes (bytes ct.ipv4_src) (v4_src key)
                  && same_bytes (bytes ct.ipv4_dst) (v4_dst key))))
    else number ct.l3proto == af_inet6
      && (ct_has ct.ipv6_src
          && (ct_has ct.ipv6_dst
              && (same_bytes (bytes ct.ipv6_src) (v6_src key)
                  && same_bytes (bytes ct.ipv6_dst) (v6_dst key))))

unfoldable pub supported_conntrack_tuple : Conntrack → Bool
supported_conntrack_tuple ct =
    if not (has_tuple ct)
    then false
    else if not (number ct.l4proto == ipproto_tcp) && not (number ct.l4proto == ipproto_udp)
    then false
    else if number ct.l3proto == af_inet
    then ct_has ct.ipv4_src && ct_has ct.ipv4_dst
    else number ct.l3proto == af_inet6 && (ct_has ct.ipv6_src && ct_has ct.ipv6_dst)

-- IPS_OFFLOAD is bit 14 of the status, IPS_HW_OFFLOAD is bit 15.
abbrev pub software_offloaded : Conntrack → Bool
software_offloaded ct = number ct.status / 2 ^ 14 % 2 == 1

abbrev pub hardware_offloaded : Conntrack → Bool
hardware_offloaded ct = number ct.status / 2 ^ 15 % 2 == 1
