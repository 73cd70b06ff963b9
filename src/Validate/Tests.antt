-- ===== src/Validate/Tests.antt =====
-- The checksum of a header of five words.
use vnic.Prelude.{ℕ, ◌≡◌, refl, List, [], ◌∷◌, Option, some, arith, false, true}
use vnic.Net.Bytes.{loaded}
use vnic.Net.Headers.{ip_pod, IpHdr}
use vnic.Parser.State.{Parser, fresh_l1, fresh_l3, zero_mac, L2Protocol}
use vnic.Parser.Accessors.{ipv4}
use vnic.Validate.Checksum.{
  check_ipv4_checksum, is_ones_complement_zero, word_sum, check_ipv4_checksum_lem,
}

abbrev header : List ℕ
header =
    0x45 ∷ 0 ∷ 0 ∷ 0x73 ∷ 0 ∷ 0 ∷ 0x40 ∷ 0 ∷ 0x40 ∷ 0x11 ∷ 0xb8 ∷ 0x61 ∷ 0xc0 ∷ 0xa8 ∷ 0 ∷ 1 ∷ 0xc0
    ∷ 0xa8 ∷ 0 ∷ 0xc7 ∷ []

abbrev header_fields : IpHdr
header_fields = loaded ip_pod header 0

abbrev parsed : Parser
parsed = record {
  l1 = fresh_l1;
  l2 = record {
    protocol = L2Protocol.ipv4;
    ip = some header_fields;
    ip6 = Option.none;
    arp = Option.none;
  };
  l3 = fresh_l3;
  l2_offset = 0;
  arp_sender_hw = zero_mac;
  arp_target_hw = zero_mac;
  arp_sender_proto = 0;
  arp_target_proto = 0;
  has_arp_addresses = false;
}

check_ipv4_checksum_lem_example : check_ipv4_checksum header parsed ≡ some true
unfolding ipv4 is_ones_complement_zero word_sum
check_ipv4_checksum_lem_example =
    check_ipv4_checksum_lem header parsed header_fields (ground arith) refl (ground arith)
