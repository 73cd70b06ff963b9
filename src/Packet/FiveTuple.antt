-- ===== src/Packet/FiveTuple.antt =====
-- include/packet/five_tuple.h and src/packet/five_tuple.cpp: the RSS hash input of a flow.
use vnic.Prelude.{ℕ, List, Option, some, replicate}
use vnic.Parser.State.{Parser, L3Protocol}
use vnic.Parser.Accessors.{ipv4, ipv6, tcp, udp}

-- Addresses and ports in network order; an IPv6 address as its 16 bytes.
pub record FiveTuple : Type 0 where
  pub version : ℕ
  pub saddr4 : ℕ
  pub daddr4 : ℕ
  pub saddr6 : List ℕ
  pub daddr6 : List ℕ
  pub sport : ℕ
  pub dport : ℕ
  pub iproto : ℕ

-- `FiveTuple{}`
abbrev pub zero_tuple : FiveTuple
zero_tuple = record {
  version = 0;
  saddr4 = 0;
  daddr4 = 0;
  saddr6 = replicate 16 0;
  daddr6 = replicate 16 0;
  sport = 0;
  dport = 0;
  iproto = 0;
}

-- The switch on the transport protocol at the end of `Get5Tuple`.
unfoldable pub with_ports : Parser → FiveTuple → FiveTuple
with_ports p t = elim p.l3.protocol [
  | L3Protocol.tcp ↦ elim (tcp p) [
    | some h ↦ record t { sport = h.source; dport = h.dest }
    | Option.none ↦ t
  ]
  | L3Protocol.udp ↦ elim (udp p) [
    | some h ↦ record t { sport = h.source; dport = h.dest }
    | Option.none ↦ t
  ]
  | _ ↦ t
]

-- `Get5Tuple`
unfoldable pub get_5tuple : Parser → FiveTuple
unfolding with_ports
get_5tuple p = elim (ipv4 p) [
  | some ip ↦ with_ports p (record zero_tuple {
    version = 4;
    saddr4 = ip.saddr;
    daddr4 = ip.daddr;
    iproto = ip.protocol;
  })
  | Option.none ↦ elim (ipv6 p) [
    | some ip6 ↦ with_ports p (record zero_tuple {
      version = 6;
      saddr6 = ip6.saddr;
      daddr6 = ip6.daddr;
      iproto = ip6.nexthdr;
    })
    | Option.none ↦ zero_tuple
  ]
]
