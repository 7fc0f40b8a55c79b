-- ===== src/Sfo/Tuple/Hash.antt =====
-- sfo/client-access-sfoctl.c: a flow record and an entry that match have one hash, and a flow that
-- is tracked matches only entries that the scan looks at.
use client_access.Prelude.{ℕ, ◌≡◌, true, ◌==◌, List, Bool-cases, inl, inr, arith, same_bytes→≡}
use client_access.Abi.{FlowKey}
use client_access.Datapath.Parse.{eth_p_ip}
use client_access.Datapath.Classify.{v4_dst, v6_dst}
use client_access.Sfo.Tuple.{
  Conntrack, v4_src, v6_src, supported_flow, number, bytes, hash_tuple, candidate_hash,
  conntrack_hash, tuple_matches, supported_conntrack_tuple,
}

hash_tuple-eq :
    (f p a b p' a' b' : ℕ) (s d s' d' : List ℕ)
    → p ≡ p'
    → a ≡ a'
    → b ≡ b'
    → s ≡ s'
    → d ≡ d'
    → hash_tuple f p a b s d ≡ hash_tuple f p' a' b' s' d'
hash_tuple-eq f p a b p' a' b' s d s' d' ep ea eb es ed = cc

-- A flow record and a conntrack entry that match have the same hash.
pub candidate_hash-eq-conntrack_hash :
    (key : FlowKey) (ct : Conntrack)
    → tuple_matches key ct ≡ true
    → candidate_hash key ≡ conntrack_hash ct
unfolding candidate_hash conntrack_hash tuple_matches
candidate_hash-eq-conntrack_hash key ct h = elim (Bool-cases (key.eth_proto == eth_p_ip)) [
  | inl four ↦ ground (
    arith,
    same_bytes→≡ (bytes ct.ipv4_src) (v4_src key),
    same_bytes→≡ (bytes ct.ipv4_dst) (v4_dst key),
    hash_tuple-eq 4 key.ip_proto key.src_port key.dst_port (number ct.l4proto) (number ct.port_src)
        (number ct.port_dst) (v4_src key) (v4_dst key) (bytes ct.ipv4_src) (bytes ct.ipv4_dst),
  )
  | inr six ↦ ground (
    arith,
    same_bytes→≡ (bytes ct.ipv6_src) (v6_src key),
    same_bytes→≡ (bytes ct.ipv6_dst) (v6_dst key),
    hash_tuple-eq 6 key.ip_proto key.src_port key.dst_port (number ct.l4proto) (number ct.port_src)
        (number ct.port_dst) (v6_src key) (v6_dst key) (bytes ct.ipv6_src) (bytes ct.ipv6_dst),
  )
]

pub tuple_matches-supported :
    (key : FlowKey) (ct : Conntrack)
    → supported_flow key ≡ true
    → tuple_matches key ct ≡ true
    → supported_conntrack_tuple ct ≡ true
unfolding supported_flow tuple_matches supported_conntrack_tuple
tuple_matches-supported key ct s h = ground arith
