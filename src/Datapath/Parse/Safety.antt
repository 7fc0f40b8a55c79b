-- ===== src/Datapath/Parse/Safety.antt =====
-- src/client-access-bpf.c, `ca_parse_flow`: no read outside of the frame, on any input, and an
-- accepted frame holds every header that was examined.
use client_access.Prelude.{
  ℕ, zero, suc, ◌+◌, ◌≤◌, ◌<◌, ◌≡◌, ◌≢◌, Option, none, some, List, [], ◌∷◌, length, get_elem?,
  arith, Ensures, Ensures-some, >>=-Ensures, Bool-cases, ltb, ltb→lt, inl, inr,
}
use client_access.Abi.{MacKey, FlowKey}
use client_access.Datapath.Parse.{
  read16, read_bytes, parse_ipv4, parse_ipv6, parse_network, parse_tcp, parse_udp, parse_transport,
  l4_header, l4_unsupported, Transport, net_header, net_unsupported, Network, Parsed, parse_ok,
  parse_no_ethernet, skip_vlans, after_network, after_vlans, finish, parse_flow, zero_key, is_vlan,
}

get_elem?-ne-none : (p : List ℕ) (i : ℕ) → i < length p → get_elem? p i ≢ none
get_elem?-ne-none [] i h = absurd (omega arith)
get_elem?-ne-none (x ∷ p) zero h = ground arith
get_elem?-ne-none (x ∷ p) (suc i) h = get_elem?-ne-none p i (omega arith)

read16-ne-none : (p : List ℕ) (i : ℕ) → i + 1 < length p → read16 p i ≢ none
read16-ne-none p i h = ground (arith, get_elem?-ne-none p i, get_elem?-ne-none p (i + 1))

read_bytes-ne-none : (n : ℕ) (p : List ℕ) (i : ℕ) → i + n ≤ length p → read_bytes n p i ≢ none
unfolding read_bytes
read_bytes-ne-none zero p i h = ground arith
read_bytes-ne-none (suc n) p i h =
    ground (arith, get_elem?-ne-none p i, read_bytes-ne-none n p (i + 1))

read_bytes-Ensures :
    (n : ℕ) (p : List ℕ) (i : ℕ) → i + n ≤ length p → Ensures (λ _. Unit {0}) (read_bytes n p i)
read_bytes-Ensures n p i h = ground (arith, read_bytes-ne-none n p i)

-- A header ends inside the frame, and not before the bytes that were examined up to it.
abbrev Inside : ℕ → ℕ → Transport → Type 0
Inside from n (l4_unsupported _) = Unit {0}
Inside from n (l4_header _ offset) = (from ≤ offset) × (offset ≤ n)

abbrev NetInside : ℕ → ℕ → Network → Type 0
NetInside from n (net_unsupported _) = Unit {0}
NetInside from n (net_header _ _ offset) = (from + 20 ≤ offset) × (offset ≤ n)

parse_tcp-Inside :
    (p : List ℕ) (l4_len offset : ℕ) (key : FlowKey)
    → Ensures (Inside offset (length p)) (parse_tcp p l4_len offset key)
unfolding parse_tcp
parse_tcp-Inside p l4_len offset key = ground (
  arith,
  get_elem?-ne-none p (offset + 12),
  read16-ne-none p offset,
  read16-ne-none p (offset + 2),
)

parse_udp-Inside :
    (p : List ℕ) (l4_len offset : ℕ) (key : FlowKey)
    → Ensures (Inside offset (length p)) (parse_udp p l4_len offset key)
unfolding parse_udp
parse_udp-Inside p l4_len offset key =
    ground
      (arith, read16-ne-none p (offset + 4), read16-ne-none p offset, read16-ne-none p (offset + 2))

parse_transport-Inside :
    (p : List ℕ) (l4_len offset : ℕ) (key : FlowKey)
    → offset ≤ length p
    → Ensures (Inside offset (length p)) (parse_transport p l4_len offset key)
unfolding parse_transport
parse_transport-Inside p l4_len offset key h =
    ground (arith, parse_tcp-Inside p l4_len offset key, parse_udp-Inside p l4_len offset key)

parse_ipv4-NetInside :
    (p : List ℕ) (packet_len offset : ℕ) (key : FlowKey)
    → Ensures (NetInside offset (length p)) (parse_ipv4 p packet_len offset key)
unfolding parse_ipv4
parse_ipv4-NetInside p packet_len offset key = ground (
  arith,
  get_elem?-ne-none p offset,
  read16-ne-none p (offset + 2),
  get_elem?-ne-none p (offset + 9),
  read_bytes-ne-none 4 p (offset + 12),
  read_bytes-ne-none 4 p (offset + 16),
  read16-ne-none p (offset + 6),
)

parse_ipv6-NetInside :
    (p : List ℕ) (packet_len offset : ℕ) (key : FlowKey)
    → Ensures (NetInside offset (length p)) (parse_ipv6 p packet_len offset key)
unfolding parse_ipv6
parse_ipv6-NetInside p packet_len offset key = ground (
  arith,
  get_elem?-ne-none p offset,
  read16-ne-none p (offset + 4),
  get_elem?-ne-none p (offset + 6),
  read_bytes-ne-none 16 p (offset + 8),
  read_bytes-ne-none 16 p (offset + 24),
)

parse_network-NetInside :
    (p : List ℕ) (packet_len proto offset : ℕ)
    → Ensures (NetInside offset (length p)) (parse_network p packet_len proto offset)
unfolding parse_network
parse_network-NetInside p packet_len proto offset = ground (
  arith,
  parse_ipv4-NetInside p packet_len offset (record zero_key { eth_proto = proto }),
  parse_ipv6-NetInside p packet_len offset (record zero_key { eth_proto = proto }),
)

abbrev TagsInside : ℕ → Option (ℕ × ℕ) → Type 0
TagsInside from none = Unit {0}
TagsInside from (some (_, offset)) = from ≤ offset

read16-Ensures : (p : List ℕ) (i : ℕ) → i + 1 < length p → Ensures (λ _. Unit {0}) (read16 p i)
read16-Ensures p i h = ground (arith, get_elem?-ne-none p i, get_elem?-ne-none p (i + 1))

skip_vlans-TagsInside :
    (rounds : ℕ) (p : List ℕ) (proto from offset : ℕ)
    → from ≤ offset
    → Ensures (TagsInside from) (skip_vlans rounds p proto offset)
unfolding skip_vlans
skip_vlans-TagsInside zero p proto from offset h = h
skip_vlans-TagsInside (suc rounds) p proto from offset h = elim (Bool-cases (is_vlan proto)) [
  | inr plain ↦ rw plain h
  | inl tagged ↦ rw tagged (elim (Bool-cases (ltb (length p) (offset + 4))) [
    | inl short ↦ rw short tt
    | inr long ↦ rw long (
        >>=-Ensures (TagsInside from) (read16 p (offset + 2)) _
          (read16-Ensures p (offset + 2) (ground arith))
          (λ inner _. skip_vlans-TagsInside rounds p inner from (offset + 4) (omega arith)))
  ])
]

-- What an accepted frame satisfies.
abbrev pub Accepted : ℕ → Parsed → Type 0
Accepted n r =
    (r.result ≡ parse_ok → (34 ≤ r.examined) × (r.examined ≤ n))
    × (r.result ≡ parse_no_ethernet → n < 14)

finish-Accepted :
    (n offset : ℕ) (mac : MacKey) (t : Transport)
    → 34 ≤ offset
    → Inside offset n t
    → Accepted n (finish mac t)
unfolding finish
finish-Accepted n offset mac (l4_unsupported key) h inside = (λ e. cc, λ e. cc)
finish-Accepted n offset mac (l4_header key end) h inside = (λ e. omega arith, λ e. cc)

after_network-Accepted :
    (p : List ℕ) (mac : MacKey) (network : Network)
    → NetInside 14 (length p) network
    → Ensures (Accepted (length p)) (after_network p mac network)
unfolding after_network
after_network-Accepted p mac (net_unsupported key) h = (λ e. cc, λ e. cc)
after_network-Accepted p mac (net_header key l4_len offset) h =
    >>=-Ensures (Accepted (length p)) (parse_transport p l4_len offset key) _
      (parse_transport-Inside p l4_len offset key (omega arith))
      (λ t inside. finish-Accepted (length p) offset mac t (omega arith) inside)

NetInside-weaken :
    (from to n : ℕ) (network : Network)
    → from ≤ to
    → NetInside to n network
    → NetInside from n network
NetInside-weaken from to n (net_unsupported key) h inside = tt
NetInside-weaken from to n (net_header key l4_len offset) h inside = omega arith

after_vlans-Accepted :
    (p : List ℕ) (packet_len : ℕ) (mac : MacKey) (tags : Option (ℕ × ℕ))
    → TagsInside 14 tags
    → Ensures (Accepted (length p)) (after_vlans p packet_len mac tags)
unfolding after_vlans
after_vlans-Accepted p packet_len mac none h = (λ e. cc, λ e. cc)
after_vlans-Accepted p packet_len mac (some (proto, offset)) h =
    >>=-Ensures (Accepted (length p)) (parse_network p packet_len proto offset) _
      (parse_network-NetInside p packet_len proto offset)
      (λ network inside.
        after_network-Accepted p mac network
          (NetInside-weaken 14 offset (length p) network h inside))

parse_flow-Ensures :
    (p : List ℕ) (packet_len : ℕ) → Ensures (Accepted (length p)) (parse_flow p packet_len)
unfolding parse_flow
parse_flow-Ensures p packet_len = elim (Bool-cases (ltb (length p) 14)) [
  | inl short ↦ rw short (λ e. cc, λ e. ltb→lt _ _ short)
  | inr long ↦ rw long (
      >>=-Ensures (Accepted (length p)) (read_bytes 6 p 6) _
        (read_bytes-Ensures 6 p 6 (ground arith))
        (λ mac _.
          >>=-Ensures (Accepted (length p)) (read16 p 12) _ (read16-Ensures p 12 (ground arith))
            (λ proto _.
              >>=-Ensures (Accepted (length p)) (skip_vlans 2 p proto 14) _
                (skip_vlans-TagsInside 2 p proto 14 14 (omega arith))
                (λ tags h. after_vlans-Accepted p packet_len mac tags h))))
]

-- Whatever the frame and the packet length, `ca_parse_flow` returns with every read inside of
-- the frame; a frame that it accepts holds all the bytes counted as examined, which are at
-- least an Ethernet and a 20-byte network header; and only a frame under 14 bytes has no
-- Ethernet header.
pub parse_flow_in_bounds :
    (p : List ℕ) (packet_len : ℕ)
    → (r : Parsed) × (parse_flow p packet_len ≡ some r)
      × ((r.result ≡ parse_ok → (34 ≤ r.examined) × (r.examined ≤ length p))
          × (r.result ≡ parse_no_ethernet → length p < 14))
parse_flow_in_bounds p packet_len = Ensures-some _ (parse_flow-Ensures p packet_len)
