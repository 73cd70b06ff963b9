-- ===== src/Parser/Complete.antt =====
-- What a successful `Parser::parse` has read, and from where in the frame.
use vnic.Prelude.{ℕ, ◌+◌, ◌*◌, ◌/◌, ◌%◌, ◌≤◌, ◌≡◌, ◌≢◌, List, some, arith, length, Returns}
use vnic.ErrorCode.{Status, done}
use vnic.Net.Bytes.{ntohs, loaded, read_bytes_inside, load_unaligned_inside}
use vnic.Net.Headers.{
  eth_pod, be16_pod, be32_pod, ip_pod, ip6_pod, arp_pod, tcp_pod, udp_pod, icmp_pod,
}
use vnic.Parser.State.{Parser, L1, L2, L3, L1Protocol, L2Protocol, L3Protocol, reset}
use vnic.Parser.Parse.{
  parse_tcp, parse_udp, parse_icmp, unknown_l3, parse_l4, parse_ipv4, parse_ipv6,
  load_arp_addresses, parse_arp, parse_l2, parse_vlan, parse,
}

-- The transport layer against the frame: `o` is its offset, `number` the protocol number that the
-- network header gives, `icmp` the number of ICMP for that network protocol.
abbrev pub Transport : ℕ → List ℕ → ℕ → ℕ → L3 → Type 0
Transport icmp frame o number l3 = elim l3.protocol [
  | L3Protocol.tcp ↦
      (number ≡ 6) × (o + 20 ≤ length frame) × (l3.tcp ≡ some (loaded tcp_pod frame o))
  | L3Protocol.udp ↦
      (number ≡ 17) × (o + 8 ≤ length frame) × (l3.udp ≡ some (loaded udp_pod frame o))
  | L3Protocol.icmp ↦
      (number ≡ icmp) × (o + 8 ≤ length frame) × (l3.icmp ≡ some (loaded icmp_pod frame o))
  | L3Protocol.unknown ↦ (number ≢ 6) × (number ≢ 17) × (number ≢ icmp)
  | L3Protocol.none ↦ ⊥
]

-- The network layer, and the transport layer behind it; `o` is its offset.
abbrev pub Network : List ℕ → ℕ → L2 → L3 → Type 0
Network frame o l2 l3 = elim l2.protocol [
  | L2Protocol.ipv4 ↦
      let h = loaded ip_pod frame o in
      (l2.ip ≡ some h)
      × (h.version ≡ 4)
      × (5 ≤ h.ihl)
      × (o + 20 ≤ length frame)
      × Transport 1 frame (o + h.ihl * 4) h.protocol l3
  | L2Protocol.ipv6 ↦
      let h = loaded ip6_pod frame o in
      (l2.ip6 ≡ some h)
      × (h.version ≡ 6)
      × (o + 40 ≤ length frame)
      × Transport 58 frame (o + 40) h.nexthdr l3
  | L2Protocol.arp ↦
      let h = loaded arp_pod frame o in
      (l2.arp ≡ some h)
      × (o + 8 + 2 * (h.ar_hln + h.ar_pln) ≤ length frame)
      × (l3.protocol ≡ L3Protocol.none)
  | L2Protocol.none ↦ ⊥
  | L2Protocol.unknown ↦ ⊥
]

-- The link layer: the header and, at offset 14, the tag of a VLAN frame.
abbrev pub LinkLayer : List ℕ → ℕ → L1 → Type 0
LinkLayer frame o l1 = elim l1.protocol [
  | L1Protocol.eth ↦ (l1.eth ≡ some (loaded eth_pod frame 0)) × (o ≡ 14)
  | L1Protocol.vlan ↦
      (l1.eth ≡ some (loaded eth_pod frame 0))
      × (o ≡ 18)
      × (l1.vlan_id ≡ ntohs (loaded be16_pod frame 14) % 4096)
  | L1Protocol.none ↦ ⊥
  | L1Protocol.unknown ↦ ⊥
]

abbrev pub Complete : List ℕ → Parser × Status → Type 0
Complete frame (p, s) =
    s ≡ done → LinkLayer frame p.l2_offset p.l1 × Network frame p.l2_offset p.l2 p.l3

-- What the helpers leave alone, and what they establish.
abbrev Keeps : Parser → Parser → Type 0
Keeps p q = (q.l1 ≡ p.l1) × (q.l2_offset ≡ p.l2_offset)

abbrev L4Post : ℕ → Parser → List ℕ → ℕ → ℕ → Parser × Status → Type 0
L4Post icmp p frame o number (q, s) =
    Keeps p q × (q.l2 ≡ p.l2) × (s ≡ done → Transport icmp frame o number q.l3)

parse_l4_lem :
    (icmp : ℕ) (p : Parser) (frame : List ℕ) (o number : ℕ)
    → Returns (L4Post icmp p frame o number) (parse_l4 icmp p frame o number)
unfolding parse_l4 parse_tcp parse_udp parse_icmp unknown_l3
parse_l4_lem icmp p frame o number = ground (
  arith,
  load_unaligned_inside tcp_pod frame o,
  load_unaligned_inside udp_pod frame o,
  load_unaligned_inside icmp_pod frame o,
)

abbrev NetPost : Parser → List ℕ → ℕ → Parser × Status → Type 0
NetPost p frame o (q, s) = Keeps p q × (s ≡ done → Network frame o q.l2 q.l3)

parse_ipv4_lem :
    (p : Parser) (frame : List ℕ) (o : ℕ) → Returns (NetPost p frame o) (parse_ipv4 p frame o)
unfolding parse_ipv4
parse_ipv4_lem p frame o =
    let h = loaded ip_pod frame o in
    let p' = record p { l2 = record (p.l2) { protocol = L2Protocol.ipv4; ip = some h } } in
    ground (
      arith,
      load_unaligned_inside ip_pod frame o,
      parse_l4_lem 1 p' frame (o + h.ihl * 4) h.protocol,
    )

parse_ipv6_lem :
    (p : Parser) (frame : List ℕ) (o : ℕ) → Returns (NetPost p frame o) (parse_ipv6 p frame o)
unfolding parse_ipv6
parse_ipv6_lem p frame o =
    let h = loaded ip6_pod frame o in
    let p' = record p { l2 = record (p.l2) { protocol = L2Protocol.ipv6; ip6 = some h } } in
    ground
      (arith, load_unaligned_inside ip6_pod frame o, parse_l4_lem 58 p' frame (o + 40) h.nexthdr)

parse_arp_lem :
    (p : Parser) (frame : List ℕ) (o : ℕ)
    → p.l3.protocol ≡ L3Protocol.none
    → Returns (NetPost p frame o) (parse_arp p frame o)
unfolding parse_arp load_arp_addresses
parse_arp_lem p frame o e = ground (
  arith,
  load_unaligned_inside arp_pod frame o,
  read_bytes_inside frame (o + 8) 6,
  read_bytes_inside frame (o + 8 + 10) 6,
  load_unaligned_inside be32_pod frame (o + 8 + 6),
  load_unaligned_inside be32_pod frame (o + 8 + 16),
)

abbrev L2Post : Parser → List ℕ → ℕ → Parser × Status → Type 0
L2Post p frame o (q, s) = (q.l1 ≡ p.l1) × (q.l2_offset ≡ o) × (s ≡ done → Network frame o q.l2 q.l3)

parse_l2_lem :
    (p : Parser) (frame : List ℕ) (o ether_type : ℕ)
    → p.l3.protocol ≡ L3Protocol.none
    → Returns (L2Post p frame o) (parse_l2 p frame o ether_type)
unfolding parse_l2
parse_l2_lem q frame o ether_type e =
    let p = record q { l2_offset = o } in
    ground (arith, parse_ipv4_lem p frame o, parse_ipv6_lem p frame o, parse_arp_lem p frame o e)

parse_vlan_lem :
    (p : Parser) (frame : List ℕ)
    → p.l1.eth ≡ some (loaded eth_pod frame 0)
    → p.l3.protocol ≡ L3Protocol.none
    → Returns (Complete frame) (parse_vlan p frame)
unfolding parse_vlan
parse_vlan_lem p frame h e =
    let tci = ntohs (loaded be16_pod frame 14) in
    let tag = record (p.l1) {
      protocol = L1Protocol.vlan;
      vlan_id = tci % 4096;
      vlan_pcp = tci / 8192 % 8;
    } in
    ground (
      arith,
      load_unaligned_inside be16_pod frame 14,
      load_unaligned_inside be16_pod frame 16,
      parse_l2_lem (record p { l1 = tag }) frame 18 (ntohs (loaded be16_pod frame 16)) e,
    )

-- A successful parse holds the Ethernet header at offset 0, for a VLAN frame the id in the tag at
-- offset 14, and at the recorded offset (14, or 18 behind a tag) an IPv4, IPv6 or ARP header that
-- lies inside the frame; an IP header has its own version number and, for IPv4, a length of at
-- least five words. Behind an IP header stands the TCP, UDP or ICMP header that its protocol number
-- names, loaded from its place and inside the frame; the tag is `unknown` for other numbers.
pub parse-Complete : (p : Parser) (frame : List ℕ) → Returns (Complete frame) (parse p frame)
unfolding parse reset
parse-Complete q frame =
    let h = loaded eth_pod frame 0 in
    let p = record (reset q) {
      l1 = record ((reset q).l1) { protocol = L1Protocol.eth; eth = some h };
    } in
    ground (
      arith,
      load_unaligned_inside eth_pod frame 0,
      parse_vlan_lem p frame,
      parse_l2_lem p frame 14 (ntohs h.h_proto),
    )
