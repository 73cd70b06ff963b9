-- ===== src/Parser/Parse.antt =====
-- `Parser::parse` and its three helpers (src/parser/parser.cpp). `none` is a read outside the frame.
use vnic.Prelude.{
  ℕ, ◌+◌, ◌*◌, ◌/◌, ◌%◌, true, not, ◌&&◌, ◌||◌, List, Option, some, ◌>>=◌, ltb, ◌==◌, if◌then◌else◌,
  length,
}
use vnic.ErrorCode.{ErrorCode, Status, unexpected, done}
use vnic.Net.Bytes.{ntohs, read_bytes, load_unaligned}
use vnic.Net.Headers.{
  eth_pod, be16_pod, be32_pod, ip_pod, ip6_pod, arp_pod, tcp_pod, udp_pod, icmp_pod,
}
use vnic.Parser.State.{Parser, L1Protocol, L2Protocol, L3Protocol, reset}

-- `ETH_P_*` of <linux/if_ether.h> and `IPPROTO_*` of <netinet/in.h>.
abbrev pub eth_p_8021q : ℕ
eth_p_8021q = 0x8100

abbrev pub eth_p_8021ad : ℕ
eth_p_8021ad = 0x88a8

abbrev pub eth_p_ip : ℕ
eth_p_ip = 0x0800

abbrev pub eth_p_ipv6 : ℕ
eth_p_ipv6 = 0x86dd

abbrev pub eth_p_arp : ℕ
eth_p_arp = 0x0806

abbrev pub ipproto_icmp : ℕ
ipproto_icmp = 1

abbrev pub ipproto_tcp : ℕ
ipproto_tcp = 6

abbrev pub ipproto_udp : ℕ
ipproto_udp = 17

abbrev pub ipproto_icmpv6 : ℕ
ipproto_icmpv6 = 58

-- A parser afterwards, with what the call returned.
abbrev pub Parsed : Type 0
Parsed = Option (Parser × Status)

-- The `case IPPROTO_TCP` of both switches.
unfoldable pub parse_tcp : Parser → List ℕ → ℕ → Parsed
parse_tcp p frame l4_offset =
    if ltb (length frame) (l4_offset + 20)
    then some (p, unexpected ErrorCode.parse_tcp_too_short)
    else do
      tcp ← load_unaligned tcp_pod frame l4_offset
      some (record p { l3 = record (p.l3) { protocol = L3Protocol.tcp; tcp = some tcp } }, done)

-- The `case IPPROTO_UDP` of both switches.
unfoldable pub parse_udp : Parser → List ℕ → ℕ → Parsed
parse_udp p frame l4_offset =
    if ltb (length frame) (l4_offset + 8)
    then some (p, unexpected ErrorCode.parse_udp_too_short)
    else do
      udp ← load_unaligned udp_pod frame l4_offset
      some (record p { l3 = record (p.l3) { protocol = L3Protocol.udp; udp = some udp } }, done)

-- The `case IPPROTO_ICMP` of one switch, and `case IPPROTO_ICMPV6` of the other.
unfoldable pub parse_icmp : Parser → List ℕ → ℕ → Parsed
parse_icmp p frame l4_offset =
    if ltb (length frame) (l4_offset + 8)
    then some (p, unexpected ErrorCode.parse_icmp_too_short)
    else do
      icmp ← load_unaligned icmp_pod frame l4_offset
      some (record p { l3 = record (p.l3) { protocol = L3Protocol.icmp; icmp = some icmp } }, done)

-- The `default` of both switches.
unfoldable pub unknown_l3 : Parser → Parser
unknown_l3 p = record p { l3 = record (p.l3) { protocol = L3Protocol.unknown } }

-- The switch on the transport protocol; the two callers differ in their number for ICMP.
unfoldable pub parse_l4 : ℕ → Parser → List ℕ → ℕ → ℕ → Parsed
parse_l4 icmp_number p frame l4_offset protocol =
    if protocol == ipproto_tcp
    then parse_tcp p frame l4_offset
    else if protocol == ipproto_udp
    then parse_udp p frame l4_offset
    else if protocol == icmp_number
    then parse_icmp p frame l4_offset
    else some (unknown_l3 p, done)

-- `Parser::parseIpv4`
unfoldable pub parse_ipv4 : Parser → List ℕ → ℕ → Parsed
parse_ipv4 p frame offset =
    if ltb (length frame) (offset + 20)
    then some (p, unexpected ErrorCode.parse_ipv4_too_short)
    else do
      ip_header ← load_unaligned ip_pod frame offset
      let p' = record p { l2 = record (p.l2) { protocol = L2Protocol.ipv4; ip = some ip_header } }
      let ihl = ip_header.ihl * 4
      if not (ip_header.version == 4)
          then some (p, unexpected ErrorCode.parse_invalid_ipv4_version)
          else if ltb ihl 20
          then some (p', unexpected ErrorCode.parse_invalid_ipv4_header_length)
          else parse_l4 ipproto_icmp p' frame (offset + ihl) ip_header.protocol

-- `Parser::parseIpv6`
unfoldable pub parse_ipv6 : Parser → List ℕ → ℕ → Parsed
parse_ipv6 p frame offset =
    if ltb (length frame) (offset + 40)
    then some (p, unexpected ErrorCode.parse_ipv6_too_short)
    else do
      ip6_header ← load_unaligned ip6_pod frame offset
      let p' = record p { l2 = record (p.l2) { protocol = L2Protocol.ipv6; ip6 = some ip6_header } }
      if not (ip6_header.version == 6)
          then some (p, unexpected ErrorCode.parse_invalid_ipv6_version)
          else parse_l4 ipproto_icmpv6 p' frame (offset + 40) ip6_header.nexthdr

-- The copies of the address fields, for `ar_hln == 6 && ar_pln == 4`; `raw` is their offset.
unfoldable pub load_arp_addresses : Parser → List ℕ → ℕ → Parsed
load_arp_addresses p frame raw = do
  sender_hw ← read_bytes frame raw 6
  target_hw ← read_bytes frame (raw + 10) 6
  sender_proto ← load_unaligned be32_pod frame (raw + 6)
  target_proto ← load_unaligned be32_pod frame (raw + 16)
  some (
    record p {
      arp_sender_hw = sender_hw;
      arp_target_hw = target_hw;
      arp_sender_proto = sender_proto;
      arp_target_proto = target_proto;
      has_arp_addresses = true;
    },
    done,
  )

-- `Parser::parseArp`
unfoldable pub parse_arp : Parser → List ℕ → ℕ → Parsed
parse_arp p frame offset =
    if ltb (length frame) (offset + 8)
    then some (p, unexpected ErrorCode.parse_arp_too_short)
    else do
      arp ← load_unaligned arp_pod frame offset
      let p' = record p { l2 = record (p.l2) { protocol = L2Protocol.arp; arp = some arp } }
      let arp_length = 8 + 2 * (arp.ar_hln + arp.ar_pln)
      if ltb (length frame) (offset + arp_length)
          then some (p, unexpected ErrorCode.parse_invalid_arp_header_length)
          else if arp.ar_hln == 6 && arp.ar_pln == 4
          then load_arp_addresses p' frame (offset + 8)
          else some (p', done)

-- The second half of `Parser::parse`: `l2Offset_` and the switch on the (inner) EtherType.
unfoldable pub parse_l2 : Parser → List ℕ → ℕ → ℕ → Parsed
parse_l2 q frame offset ether_type =
    let p = record q { l2_offset = offset } in
    if ether_type == eth_p_ip
    then parse_ipv4 p frame offset
    else if ether_type == eth_p_ipv6
    then parse_ipv6 p frame offset
    else if ether_type == eth_p_arp
    then parse_arp p frame offset
    else some (
      record p { l2 = record (p.l2) { protocol = L2Protocol.unknown } },
      unexpected ErrorCode.parse_unsupported_ether_type,
    )

-- The `case ETH_P_8021Q` and `case ETH_P_8021AD`, and all that follows it.
unfoldable pub parse_vlan : Parser → List ℕ → Parsed
parse_vlan p frame =
    if ltb (length frame) (14 + 4) then some (p, unexpected ErrorCode.parse_truncated) else do
      raw_tci ← load_unaligned be16_pod frame 14
      raw_type ← load_unaligned be16_pod frame (14 + 2)
      let tci = ntohs raw_tci
      let tag = record (p.l1) {
        protocol = L1Protocol.vlan;
        vlan_id = tci % 4096;
        vlan_pcp = tci / 8192 % 8;
      }
      parse_l2 (record p { l1 = tag }) frame (14 + 4) (ntohs raw_type)

-- `Parser::parse`
unfoldable pub parse : Parser → List ℕ → Parsed
parse q frame =
    if ltb (length frame) 14
    then some (reset q, unexpected ErrorCode.parse_ethernet_too_short)
    else do
      eth ← load_unaligned eth_pod frame 0
      let p = record (reset q) {
        l1 = record ((reset q).l1) { protocol = L1Protocol.eth; eth = some eth };
      }
      let ether_type = ntohs eth.h_proto
      if ether_type == eth_p_8021q || ether_type == eth_p_8021ad
          then parse_vlan p frame
          else parse_l2 p frame 14 ether_type
