-- ===== src/Parser/State.antt =====
-- The data of class `Parser` (include/parser/parser.h) and `Parser::reset`.
use vnic.Prelude.{ℕ, Bool, false, List, Option, replicate}
use vnic.Net.Headers.{EthHdr, IpHdr, Ipv6Hdr, ArpHdr, TcpHdr, UdpHdr, IcmpHdr}

pub data L1Protocol : Type 0 where
  none eth vlan unknown : L1Protocol

pub data L2Protocol : Type 0 where
  none ipv4 ipv6 arp unknown : L2Protocol

pub data L3Protocol : Type 0 where
  none icmp tcp udp unknown : L3Protocol

-- `struct L1`
pub record L1 : Type 0 where
  pub protocol : L1Protocol
  pub eth : Option EthHdr
  pub vlan_id : ℕ
  pub vlan_pcp : ℕ

-- `struct L2`
pub record L2 : Type 0 where
  pub protocol : L2Protocol
  pub ip : Option IpHdr
  pub ip6 : Option Ipv6Hdr
  pub arp : Option ArpHdr

-- `struct L3`
pub record L3 : Type 0 where
  pub protocol : L3Protocol
  pub icmp : Option IcmpHdr
  pub tcp : Option TcpHdr
  pub udp : Option UdpHdr

-- The members of `Parser`.
pub record Parser : Type 0 where
  pub l1 : L1
  pub l2 : L2
  pub l3 : L3
  pub l2_offset : ℕ
  pub arp_sender_hw : List ℕ
  pub arp_target_hw : List ℕ
  pub arp_sender_proto : ℕ
  pub arp_target_proto : ℕ
  pub has_arp_addresses : Bool

-- `L1{}`, `L2{}` and `L3{}`: the default member initialisers.
abbrev pub fresh_l1 : L1
fresh_l1 = record { protocol = L1Protocol.none; eth = Option.none; vlan_id = 0; vlan_pcp = 0 }

abbrev pub fresh_l2 : L2
fresh_l2 = record {
  protocol = L2Protocol.none;
  ip = Option.none;
  ip6 = Option.none;
  arp = Option.none;
}

abbrev pub fresh_l3 : L3
fresh_l3 = record {
  protocol = L3Protocol.none;
  icmp = Option.none;
  tcp = Option.none;
  udp = Option.none;
}

-- A default-constructed `std::array<std::uint8_t, 6>`.
abbrev pub zero_mac : List ℕ
zero_mac = replicate 6 0

-- `Parser::reset`: every member is assigned, whatever it held.
unfoldable pub reset : Parser → Parser
reset p = record p {
  l1 = fresh_l1;
  l2 = fresh_l2;
  l3 = fresh_l3;
  l2_offset = 0;
  arp_sender_hw = zero_mac;
  arp_target_hw = zero_mac;
  arp_sender_proto = 0;
  arp_target_proto = 0;
  has_arp_addresses = false;
}
