-- ===== src/Net/Headers.antt =====
-- The headers of <linux/if_ether.h>, <linux/ip.h>, <linux/ipv6.h>, <net/if_arp.h>, <linux/tcp.h>,
-- <linux/udp.h> and <linux/icmp.h>, as the wire lays them out on a little-endian machine: the
-- fields that the code reads, and those that stand between them.
use vnic.Prelude.{ℕ, ◌/◌, ◌%◌, List, Bool, ◌==◌}
use vnic.Net.Bytes.{u8, u16, u32, field_bytes, Pod}

pub record EthHdr : Type 0 where
  pub h_dest : List ℕ
  pub h_source : List ℕ
  pub h_proto : ℕ

pub record IpHdr : Type 0 where
  pub version : ℕ
  pub ihl : ℕ
  pub tos : ℕ
  pub tot_len : ℕ
  pub id : ℕ
  pub frag_off : ℕ
  pub ttl : ℕ
  pub protocol : ℕ
  pub check : ℕ
  pub saddr : ℕ
  pub daddr : ℕ

pub record Ipv6Hdr : Type 0 where
  pub version : ℕ
  pub priority : ℕ
  pub flow_lbl : List ℕ
  pub payload_len : ℕ
  pub nexthdr : ℕ
  pub hop_limit : ℕ
  pub saddr : List ℕ
  pub daddr : List ℕ

pub record ArpHdr : Type 0 where
  pub ar_hrd : ℕ
  pub ar_pro : ℕ
  pub ar_hln : ℕ
  pub ar_pln : ℕ
  pub ar_op : ℕ

pub record TcpHdr : Type 0 where
  pub source : ℕ
  pub dest : ℕ
  pub seq : ℕ
  pub ack_seq : ℕ
  pub doff : ℕ
  pub fin : Bool
  pub syn : Bool
  pub rst : Bool
  pub psh : Bool
  pub ack : Bool
  pub urg : Bool
  pub window : ℕ
  pub check : ℕ
  pub urg_ptr : ℕ

pub record UdpHdr : Type 0 where
  pub source : ℕ
  pub dest : ℕ
  pub len : ℕ
  pub check : ℕ

pub record IcmpHdr : Type 0 where
  pub icmp_type : ℕ
  pub icmp_code : ℕ
  pub checksum : ℕ
  pub echo_id : ℕ
  pub echo_sequence : ℕ

abbrev pub eth_pod : Pod EthHdr
eth_pod = record {
  sizeof = 14;
  decode =
      λ b. record { h_dest = field_bytes b 0 6; h_source = field_bytes b 6 6; h_proto = u16 b 12 };
}

-- A `__be16` on its own.
abbrev pub be16_pod : Pod ℕ
be16_pod = record { sizeof = 2; decode = λ b. u16 b 0 }

-- A `__be32` on its own.
abbrev pub be32_pod : Pod ℕ
be32_pod = record { sizeof = 4; decode = λ b. u32 b 0 }

abbrev pub ip_pod : Pod IpHdr
ip_pod = record {
  sizeof = 20;
  decode = λ b. record {
    version = u8 b 0 / 16;
    ihl = u8 b 0 % 16;
    tos = u8 b 1;
    tot_len = u16 b 2;
    id = u16 b 4;
    frag_off = u16 b 6;
    ttl = u8 b 8;
    protocol = u8 b 9;
    check = u16 b 10;
    saddr = u32 b 12;
    daddr = u32 b 16;
  };
}

abbrev pub ip6_pod : Pod Ipv6Hdr
ip6_pod = record {
  sizeof = 40;
  decode = λ b. record {
    version = u8 b 0 / 16;
    priority = u8 b 0 % 16;
    flow_lbl = field_bytes b 1 3;
    payload_len = u16 b 4;
    nexthdr = u8 b 6;
    hop_limit = u8 b 7;
    saddr = field_bytes b 8 16;
    daddr = field_bytes b 24 16;
  };
}

abbrev pub arp_pod : Pod ArpHdr
arp_pod = record {
  sizeof = 8;
  decode = λ b. record {
    ar_hrd = u16 b 0;
    ar_pro = u16 b 2;
    ar_hln = u8 b 4;
    ar_pln = u8 b 5;
    ar_op = u16 b 6;
  };
}

-- Bit `k` of a byte, divided down by the caller.
abbrev low_bit : ℕ → Bool
low_bit x = x % 2 == 1

abbrev pub tcp_pod : Pod TcpHdr
tcp_pod = record {
  sizeof = 20;
  decode = λ b. record {
    source = u16 b 0;
    dest = u16 b 2;
    seq = u32 b 4;
    ack_seq = u32 b 8;
    doff = u8 b 12 / 16;
    fin = low_bit (u8 b 13);
    syn = low_bit (u8 b 13 / 2);
    rst = low_bit (u8 b 13 / 4);
    psh = low_bit (u8 b 13 / 8);
    ack = low_bit (u8 b 13 / 16);
    urg = low_bit (u8 b 13 / 32);
    window = u16 b 14;
    check = u16 b 16;
    urg_ptr = u16 b 18;
  };
}

abbrev pub udp_pod : Pod UdpHdr
udp_pod = record {
  sizeof = 8;
  decode = λ b. record { source = u16 b 0; dest = u16 b 2; len = u16 b 4; check = u16 b 6 };
}

abbrev pub icmp_pod : Pod IcmpHdr
icmp_pod = record {
  sizeof = 8;
  decode = λ b. record {
    icmp_type = u8 b 0;
    icmp_code = u8 b 1;
    checksum = u16 b 2;
    echo_id = u16 b 4;
    echo_sequence = u16 b 6;
  };
}
