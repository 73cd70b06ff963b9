-- ===== src/Parser/Tags.antt =====
-- `Parser::parse` is defined on every frame, and its protocol tags tell which headers are held.
use vnic.Prelude.{
  ℕ, ◌+◌, ◌*◌, ◌≤◌, ◌<◌, ◌≡◌, refl, Bool, true, false, List, some, arith, length, Returns, is_some,
  ◌/◌, ◌%◌,
}
use vnic.ErrorCode.{Status}
use vnic.Net.Bytes.{ntohs, loaded, read_bytes_inside, load_unaligned_inside}
use vnic.Net.Headers.{
  eth_pod, be16_pod, be32_pod, ip_pod, ip6_pod, arp_pod, tcp_pod, udp_pod, icmp_pod,
}
use vnic.Parser.State.{Parser, L1Protocol, L2Protocol, L3Protocol, reset}
use vnic.Parser.Parse.{
  parse_tcp, parse_udp, parse_icmp, unknown_l3, parse_l4, parse_ipv4, parse_ipv6,
  load_arp_addresses, parse_arp, parse_l2, parse_vlan, parse,
}

abbrev pub has_eth : L1Protocol → Bool
has_eth L1Protocol.eth = true
has_eth L1Protocol.vlan = true
has_eth _ = false

abbrev pub is_ipv4 : L2Protocol → Bool
is_ipv4 L2Protocol.ipv4 = true
is_ipv4 _ = false

abbrev pub is_ipv6 : L2Protocol → Bool
is_ipv6 L2Protocol.ipv6 = true
is_ipv6 _ = false

abbrev pub is_arp : L2Protocol → Bool
is_arp L2Protocol.arp = true
is_arp _ = false

abbrev pub is_icmp : L3Protocol → Bool
is_icmp L3Protocol.icmp = true
is_icmp _ = false

abbrev pub is_tcp : L3Protocol → Bool
is_tcp L3Protocol.tcp = true
is_tcp _ = false

abbrev pub is_udp : L3Protocol → Bool
is_udp L3Protocol.udp = true
is_udp _ = false

-- A header is held exactly when the tag of its layer names it; ARP addresses come with ARP only.
pub record IsTagged (p : Parser) : Type 0 where
  pub eth_tag : is_some p.l1.eth ≡ has_eth p.l1.protocol
  pub ip_tag : is_some p.l2.ip ≡ is_ipv4 p.l2.protocol
  pub ip6_tag : is_some p.l2.ip6 ≡ is_ipv6 p.l2.protocol
  pub arp_tag : is_some p.l2.arp ≡ is_arp p.l2.protocol
  pub icmp_tag : is_some p.l3.icmp ≡ is_icmp p.l3.protocol
  pub tcp_tag : is_some p.l3.tcp ≡ is_tcp p.l3.protocol
  pub udp_tag : is_some p.l3.udp ≡ is_udp p.l3.protocol
  pub vlan_range : p.l1.vlan_id < 4096
  pub pcp_range : p.l1.vlan_pcp < 8

-- Nothing of the network or the transport layer is there yet.
record IsLinkOnly (p : Parser) : Type 0 where
  tagged : IsTagged p
  l2_none : p.l2.protocol ≡ L2Protocol.none
  l3_none : p.l3.protocol ≡ L3Protocol.none

-- Nothing of the transport layer is there yet.
record IsNetworkOnly (p : Parser) : Type 0 where
  tagged : IsTagged p
  l3_none : p.l3.protocol ≡ L3Protocol.none

abbrev pub Tagged : Parser × Status → Type 0
Tagged (p, s) = IsTagged p

parse_l4-Tagged :
    (icmp : ℕ) (p : Parser) (frame : List ℕ) (o protocol : ℕ)
    → IsNetworkOnly p
    → Returns Tagged (parse_l4 icmp p frame o protocol)
unfolding parse_l4 parse_tcp parse_udp parse_icmp unknown_l3
parse_l4-Tagged icmp p frame o protocol t = ground (
  arith,
  load_unaligned_inside tcp_pod frame o,
  load_unaligned_inside udp_pod frame o,
  load_unaligned_inside icmp_pod frame o,
)

parse_ipv4-Tagged :
    (p : Parser) (frame : List ℕ) (o : ℕ) → IsLinkOnly p → Returns Tagged (parse_ipv4 p frame o)
unfolding parse_ipv4
parse_ipv4-Tagged p frame o t =
    let h = loaded ip_pod frame o in
    let p' = record p { l2 = record (p.l2) { protocol = L2Protocol.ipv4; ip = some h } } in
    ground (
      arith,
      load_unaligned_inside ip_pod frame o,
      parse_l4-Tagged 1 p' frame (o + h.ihl * 4) h.protocol,
    )

parse_ipv6-Tagged :
    (p : Parser) (frame : List ℕ) (o : ℕ) → IsLinkOnly p → Returns Tagged (parse_ipv6 p frame o)
unfolding parse_ipv6
parse_ipv6-Tagged p frame o t =
    let h = loaded ip6_pod frame o in
    let p' = record p { l2 = record (p.l2) { protocol = L2Protocol.ipv6; ip6 = some h } } in
    ground
      (arith, load_unaligned_inside ip6_pod frame o, parse_l4-Tagged 58 p' frame (o + 40) h.nexthdr)

load_arp_addresses-Tagged :
    (p : Parser) (frame : List ℕ) (raw : ℕ)
    → IsTagged p
    → raw + 20 ≤ length frame
    → Returns Tagged (load_arp_addresses p frame raw)
unfolding load_arp_addresses
load_arp_addresses-Tagged p frame raw t h = ground (
  arith,
  read_bytes_inside frame raw 6,
  read_bytes_inside frame (raw + 10) 6,
  load_unaligned_inside be32_pod frame (raw + 6),
  load_unaligned_inside be32_pod frame (raw + 16),
)

parse_arp-Tagged :
    (p : Parser) (frame : List ℕ) (o : ℕ) → IsLinkOnly p → Returns Tagged (parse_arp p frame o)
unfolding parse_arp
parse_arp-Tagged p frame o t =
    let h = loaded arp_pod frame o in
    let p' = record p { l2 = record (p.l2) { protocol = L2Protocol.arp; arp = some h } } in
    ground
      (arith, load_unaligned_inside arp_pod frame o, load_arp_addresses-Tagged p' frame (o + 8))

parse_l2-Tagged :
    (p : Parser) (frame : List ℕ) (o ether_type : ℕ)
    → IsLinkOnly p
    → Returns Tagged (parse_l2 p frame o ether_type)
unfolding parse_l2
parse_l2-Tagged q frame o ether_type t =
    let p = record q { l2_offset = o } in
    ground
      (arith, parse_ipv4-Tagged p frame o, parse_ipv6-Tagged p frame o, parse_arp-Tagged p frame o)

parse_vlan-Tagged :
    (p : Parser) (frame : List ℕ)
    → IsLinkOnly p
    → is_some p.l1.eth ≡ true
    → Returns Tagged (parse_vlan p frame)
unfolding parse_vlan
parse_vlan-Tagged p frame t e =
    let tci = ntohs (loaded be16_pod frame 14) in
    let tag = record (p.l1) {
      protocol = L1Protocol.vlan;
      vlan_id = tci % 4096;
      vlan_pcp = tci / 8192 % 8;
    } in
    ground (
      arith,
      load_unaligned_inside be16_pod frame 14,
      load_unaligned_inside be16_pod frame 16,
      parse_l2-Tagged (record p { l1 = tag }) frame 18 (ntohs (loaded be16_pod frame 16)),
    )

-- Parsing is defined on every frame, whatever the parser held before and however short the frame
-- is: no read lies outside it. Afterwards, also after an error, each header is held exactly when
-- the tag of its layer names it, and the VLAN id and priority have 12 and 3 bits.
pub parse-Tagged : (p : Parser) (frame : List ℕ) → Returns Tagged (parse p frame)
unfolding parse reset
parse-Tagged q frame =
    let h = loaded eth_pod frame 0 in
    let p = record (reset q) {
      l1 = record ((reset q).l1) { protocol = L1Protocol.eth; eth = some h };
    } in
    ground (
      arith,
      load_unaligned_inside eth_pod frame 0,
      parse_vlan-Tagged p frame,
      parse_l2-Tagged p frame 14 (ntohs h.h_proto),
    )

-- What a parser held before has no influence: neither on the result nor on any member.
pub parse-independent : (p q : Parser) (frame : List ℕ) → parse p frame ≡ parse q frame
unfolding parse reset
parse-independent p q frame = refl
