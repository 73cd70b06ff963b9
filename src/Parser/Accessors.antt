-- ===== src/Parser/Accessors.antt =====
-- The accessors of class `Parser` (src/parser/parser.cpp). `l1Protocol`, `l2Protocol`,
-- `l3Protocol` and `l2Offset` are the fields themselves.
use vnic.Prelude.{ℕ, Option}
use vnic.Net.Headers.{EthHdr, IpHdr, Ipv6Hdr, ArpHdr, TcpHdr, UdpHdr, IcmpHdr}
use vnic.Parser.State.{Parser, L1Protocol, L2Protocol, L3Protocol}

unfoldable pub eth : Parser → Option EthHdr
eth p = elim p.l1.protocol [
  | L1Protocol.eth ↦ p.l1.eth
  | L1Protocol.vlan ↦ p.l1.eth
  | _ ↦ Option.none
]

unfoldable pub vlan_id : Parser → ℕ
vlan_id p = elim p.l1.protocol [ L1Protocol.vlan ↦ p.l1.vlan_id | _ ↦ 0 ]

unfoldable pub ipv4 : Parser → Option IpHdr
ipv4 p = elim p.l2.protocol [ L2Protocol.ipv4 ↦ p.l2.ip | _ ↦ Option.none ]

unfoldable pub ipv6 : Parser → Option Ipv6Hdr
ipv6 p = elim p.l2.protocol [ L2Protocol.ipv6 ↦ p.l2.ip6 | _ ↦ Option.none ]

unfoldable pub arp : Parser → Option ArpHdr
arp p = elim p.l2.protocol [ L2Protocol.arp ↦ p.l2.arp | _ ↦ Option.none ]

unfoldable pub icmp : Parser → Option IcmpHdr
icmp p = elim p.l3.protocol [ L3Protocol.icmp ↦ p.l3.icmp | _ ↦ Option.none ]

unfoldable pub tcp : Parser → Option TcpHdr
tcp p = elim p.l3.protocol [ L3Protocol.tcp ↦ p.l3.tcp | _ ↦ Option.none ]

unfoldable pub udp : Parser → Option UdpHdr
udp p = elim p.l3.protocol [ L3Protocol.udp ↦ p.l3.udp | _ ↦ Option.none ]
