-- ===== src/Sample/Udp.antt =====
-- examples/common.h: the generator of UDP packets. `none` is an exception, or a write outside the
-- packet.
use vnic.Prelude.{
  ℕ, ◌+◌, ◌-◌, ◌*◌, ◌%◌, ◌^◌, List, [], ◌∷◌, map, Option, none, some, ◌>>=◌, length, replicate,
  ◌==◌, if◌then◌else◌,
}
use vnic.Net.Bytes.{ntohs}
use vnic.Net.Headers.{EthHdr, IpHdr, UdpHdr}
use vnic.Net.Layout.{eth_bytes, ip_bytes, udp_bytes}
use vnic.Net.Store.{write_bytes, store_unaligned}
use vnic.Validate.Checksum.{fold_carries}

-- The loop of `ComputeChecksum` over the words of an object, and its odd byte; a word is loaded in
-- host order.
unfoldable pub sum_words : List ℕ → ℕ → ℕ
sum_words [] sum = sum
sum_words (b ∷ []) sum = (sum + b) % 2 ^ 32
sum_words (a ∷ b ∷ bytes) sum = sum_words bytes ((sum + (a + 256 * b)) % 2 ^ 32)

-- `ComputeChecksum`; three tests end its second loop, which is that of `CheckIpv4Checksum`.
unfoldable pub compute_checksum : List ℕ → Option ℕ
compute_checksum bytes = do sum ← fold_carries 3 (sum_words bytes 0); some (65535 - sum % 65536)

-- The header of `MakeUdpPacket` with a checksum.
abbrev pub udp_ip : ℕ → ℕ → ℕ → ℕ → IpHdr
udp_ip payload_size saddr daddr check = record {
  version = 4;
  ihl = 5;
  tos = 0;
  tot_len = ntohs ((20 + 8 + payload_size) % 2 ^ 16);
  id = ntohs 0;
  frag_off = ntohs 0;
  ttl = 64;
  protocol = 17;
  check = check;
  saddr = saddr;
  daddr = daddr;
}

abbrev pub udp_eth : List ℕ → List ℕ → EthHdr
udp_eth dest source = record { h_dest = dest; h_source = source; h_proto = ntohs 0x0800 }

abbrev pub udp_header : ℕ → ℕ → ℕ → UdpHdr
udp_header payload_size src_port dst_port = record {
  source = ntohs src_port;
  dest = ntohs dst_port;
  len = ntohs ((8 + payload_size) % 2 ^ 16);
  check = 0;
}

-- `std::sscanf(mac.c_str(), "%x:%x:%x:%x:%x:%x", …)` gives the numbers that it stores, and
-- `inet_pton(AF_INET, …)` the address in network order, or nothing if the text is no address.
module _ {ℓ} {Text : Type ℓ} (scan_mac : Text → List ℕ) (inet_pton : Text → Option ℕ) where
  -- `MacToArray`
  unfoldable pub mac_to_array : Text → Option (List ℕ)
  mac_to_array mac =
      if length (scan_mac mac) == 6 then some (map (λ part. part % 256) (scan_mac mac)) else none

  -- `IpToU32`
  unfoldable pub ip_to_u32 : Text → Option ℕ
  ip_to_u32 ip = inet_pton ip

  -- `MakeUdpPacket`: the packet that it leaves in its last argument.
  unfoldable pub make_udp_packet : Text → Text → Text → Text → ℕ → ℕ → List ℕ → Option (List ℕ)
  make_udp_packet src_mac dst_mac src_ip dst_ip src_port dst_port payload = do
    let zeros = replicate (14 + 20 + 8 + length payload) 0
    source ← mac_to_array src_mac
    dest ← mac_to_array dst_mac
    packet1 ← store_unaligned zeros 0 (eth_bytes (udp_eth dest source))
    saddr ← ip_to_u32 src_ip
    daddr ← ip_to_u32 dst_ip
    check ← compute_checksum (ip_bytes (udp_ip (length payload) saddr daddr 0))
    packet2 ← store_unaligned packet1 14 (ip_bytes (udp_ip (length payload) saddr daddr check))
    packet3 ←
        store_unaligned packet2 (14 + 20)
          (udp_bytes (udp_header (length payload) src_port dst_port))
    if length payload == 0 then some packet3 else write_bytes packet3 (14 + 20 + 8) payload
