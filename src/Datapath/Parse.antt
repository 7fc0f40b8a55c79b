-- ===== src/Datapath/Parse.antt =====
-- src/client-access-bpf.c, `ca_parse_flow`: from the linear bytes of a frame to a flow key.
-- A frame is the list of the bytes from `data` up to `data_end`; a read outside of it is `none`,
-- which stands for the access that the in-kernel verifier must exclude.
pub mod Safety
use client_access.Prelude.{
  ℕ, zero, suc, ◌+◌, ◌-◌, ◌*◌, ◌/◌, ◌%◌, ◌^◌, min, Bool, true, false, not, ◌||◌, Option, none, some,
  List, [], ◌∷◌, ◌++◌, ltb, ◌==◌, if◌then◌else◌, ◌>>=◌, length, get_elem?, replicate,
}
use client_access.Abi.{MacKey, FlowKey}

pub data ParseResult : Type 0 where
  parse_ok parse_no_ethernet parse_unsupported : ParseResult

-- The result, and the three values that the function writes through its pointers.
pub record Parsed : Type 0 where
  pub result : ParseResult
  pub key : FlowKey
  pub mac : MacKey
  pub examined : ℕ

-- What the network header leaves to the transport header.
pub data Network : Type 0 where
  net_unsupported : FlowKey → Network
  net_header : FlowKey → (l4_len : ℕ) → (offset : ℕ) → Network

pub data Transport : Type 0 where
  l4_unsupported : FlowKey → Transport
  l4_header : FlowKey → (offset : ℕ) → Transport

abbrev pub eth_p_ip : ℕ
eth_p_ip = 0x0800

abbrev pub eth_p_ipv6 : ℕ
eth_p_ipv6 = 0x86dd

abbrev pub eth_p_8021q : ℕ
eth_p_8021q = 0x8100

abbrev pub eth_p_8021ad : ℕ
eth_p_8021ad = 0x88a8

abbrev pub ipproto_tcp : ℕ
ipproto_tcp = 6

abbrev pub ipproto_udp : ℕ
ipproto_udp = 17

abbrev pub zero_key : FlowKey
zero_key = record {
  subject_id = 0;
  eth_proto = 0;
  ip_proto = 0;
  src_port = 0;
  dst_port = 0;
  addr = replicate 32 0;
}

abbrev pub read16 : List ℕ → ℕ → Option ℕ
read16 p i = do high ← get_elem? p i; low ← get_elem? p (i + 1); some (high * 256 + low)

unfoldable pub read_bytes : ℕ → List ℕ → ℕ → Option (List ℕ)
read_bytes zero p i = some []
read_bytes (suc n) p i = do b ← get_elem? p i; rest ← read_bytes n p (i + 1); some (b ∷ rest)

unfoldable pub is_ipv6_extension : ℕ → Bool
is_ipv6_extension nexthdr =
    nexthdr == 0
    || nexthdr == 43
    || nexthdr == 44
    || nexthdr == 50
    || nexthdr == 51
    || nexthdr == 60

abbrev pub is_vlan : ℕ → Bool
is_vlan proto = proto == eth_p_8021q || proto == eth_p_8021ad

-- The unrolled loop over VLAN tags: the protocol and the offset after them, `none` inside for a
-- tag that the frame cuts off.
unfoldable pub skip_vlans : ℕ → List ℕ → ℕ → ℕ → Option (Option (ℕ × ℕ))
skip_vlans zero p proto offset = some (some (proto, offset))
skip_vlans (suc rounds) p proto offset =
    if is_vlan proto
    then (if ltb (length p) (offset + 4)
        then some none
        else (do inner ← read16 p (offset + 2); skip_vlans rounds p inner (offset + 4)))
    else some (some (proto, offset))

unfoldable pub parse_ipv4 : List ℕ → ℕ → ℕ → FlowKey → Option Network
parse_ipv4 p packet_len offset key =
    if ltb (length p) (offset + 20) then some (net_unsupported key) else do
      first ← get_elem? p offset
      let ihl = first % 16 * 4
      if not (first / 16 == 4) || (ltb ihl 20 || ltb (length p) (offset + ihl))
          then some (net_unsupported key)
          else do
            total_len ← read16 p (offset + 2)
            if ltb total_len ihl || ltb packet_len (offset + total_len)
                then some (net_unsupported key)
                else do
                  protocol ← get_elem? p (offset + 9)
                  saddr ← read_bytes 4 p (offset + 12)
                  daddr ← read_bytes 4 p (offset + 16)
                  let found = record key {
                    ip_proto = protocol;
                    addr = saddr ++ (daddr ++ replicate 24 0);
                  }
                  frag_off ← read16 p (offset + 6)
                  if frag_off % 2 ^ 14 == 0
                      then some (net_header found (total_len - ihl) (offset + ihl))
                      else some (net_unsupported found)

unfoldable pub parse_ipv6 : List ℕ → ℕ → ℕ → FlowKey → Option Network
parse_ipv6 p packet_len offset key =
    if ltb (length p) (offset + 40) then some (net_unsupported key) else do
      first ← get_elem? p offset
      if not (first / 16 == 6) then some (net_unsupported key) else do
        payload_len ← read16 p (offset + 4)
        if payload_len == 0 || ltb packet_len (offset + 40 + payload_len)
            then some (net_unsupported key)
            else do
              nexthdr ← get_elem? p (offset + 6)
              saddr ← read_bytes 16 p (offset + 8)
              daddr ← read_bytes 16 p (offset + 24)
              let found = record key { ip_proto = nexthdr; addr = saddr ++ daddr }
              if is_ipv6_extension nexthdr
                  then some (net_unsupported found)
                  else some (net_header found payload_len (offset + 40))

unfoldable pub parse_tcp : List ℕ → ℕ → ℕ → FlowKey → Option Transport
parse_tcp p l4_len offset key =
    if ltb l4_len 20 || ltb (length p) (offset + 20) then some (l4_unsupported key) else do
      doff_byte ← get_elem? p (offset + 12)
      let doff = doff_byte / 16
      let tcp_len = doff * 4
      if ltb doff 5 || (ltb l4_len tcp_len || ltb (length p) (offset + tcp_len))
          then some (l4_unsupported key)
          else do
            source ← read16 p offset
            dest ← read16 p (offset + 2)
            some (l4_header (record key { src_port = source; dst_port = dest }) (offset + tcp_len))

unfoldable pub parse_udp : List ℕ → ℕ → ℕ → FlowKey → Option Transport
parse_udp p l4_len offset key =
    if ltb l4_len 8 || ltb (length p) (offset + 8) then some (l4_unsupported key) else do
      udp_len ← read16 p (offset + 4)
      if ltb udp_len 8 || ltb l4_len udp_len then some (l4_unsupported key) else do
        source ← read16 p offset
        dest ← read16 p (offset + 2)
        some (l4_header (record key { src_port = source; dst_port = dest }) (offset + 8))

unfoldable pub parse_network : List ℕ → ℕ → ℕ → ℕ → Option Network
parse_network p packet_len proto offset =
    let key = record zero_key { eth_proto = proto } in
    if proto == eth_p_ip
    then parse_ipv4 p packet_len offset key
    else if proto == eth_p_ipv6
    then parse_ipv6 p packet_len offset key
    else some (net_unsupported key)

unfoldable pub parse_transport : List ℕ → ℕ → ℕ → FlowKey → Option Transport
parse_transport p l4_len offset key =
    if key.ip_proto == ipproto_tcp
    then parse_tcp p l4_len offset key
    else if key.ip_proto == ipproto_udp
    then parse_udp p l4_len offset key
    else some (l4_header key offset)

abbrev pub unsupported : MacKey → FlowKey → Parsed
unsupported mac key = record { result = parse_unsupported; key = key; mac = mac; examined = 0 }

unfoldable pub finish : MacKey → Transport → Parsed
finish mac (l4_unsupported key) = unsupported mac key
finish mac (l4_header key offset) = record {
  result = parse_ok;
  key = key;
  mac = mac;
  examined = min offset 0xffffffff;
}

unfoldable pub after_network : List ℕ → MacKey → Network → Option Parsed
after_network p mac (net_unsupported key) = some (unsupported mac key)
after_network p mac (net_header key l4_len offset) = do
  transport ← parse_transport p l4_len offset key
  some (finish mac transport)

unfoldable pub after_vlans : List ℕ → ℕ → MacKey → Option (ℕ × ℕ) → Option Parsed
after_vlans p packet_len mac none = some (unsupported mac zero_key)
after_vlans p packet_len mac (some (proto, offset)) = do
  network ← parse_network p packet_len proto offset
  after_network p mac network

-- `ca_parse_flow(data, data_end, packet_len, &key, &mac, &examined)` over a zeroed key and mac
unfoldable pub parse_flow : List ℕ → ℕ → Option Parsed
parse_flow p packet_len =
    if ltb (length p) 14
    then some
        (record { result = parse_no_ethernet; key = zero_key; mac = replicate 6 0; examined = 0 })
    else do
      mac ← read_bytes 6 p 6
      proto ← read16 p 12
      tags ← skip_vlans 2 p proto 14
      after_vlans p packet_len mac tags
