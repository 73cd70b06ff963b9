-- ===== src/Parser/Answer.antt =====
-- What a parser of Ethernet frames answers, said of the bytes on the wire: no state, no loads, no
-- host order.
use vnic.Prelude.{ℕ, ◌+◌, ◌*◌, ◌/◌, ◌%◌, not, ◌||◌, List, length, ltb, ◌==◌, if◌then◌else◌}
use vnic.ErrorCode.{ErrorCode, Status, unexpected, done}
use vnic.Net.Bytes.{u8}
use vnic.Net.Wire.{wire16}

abbrev pub need : List ℕ → ℕ → ErrorCode → Status → Status
need frame n e rest = if ltb (length frame) n then unexpected e else rest

unfoldable pub transport_verdict : ℕ → List ℕ → ℕ → ℕ → Status
transport_verdict icmp frame o number =
    if number == 6
    then need frame (o + 20) ErrorCode.parse_tcp_too_short done
    else if number == 17
    then need frame (o + 8) ErrorCode.parse_udp_too_short done
    else if number == icmp
    then need frame (o + 8) ErrorCode.parse_icmp_too_short done
    else done

-- By the version, the header length in words and the protocol number of the header.
unfoldable pub ipv4_by : List ℕ → ℕ → ℕ → ℕ → ℕ → Status
ipv4_by frame o version words number = need frame (o + 20) ErrorCode.parse_ipv4_too_short (
    if not (version == 4)
    then unexpected ErrorCode.parse_invalid_ipv4_version
    else if ltb words 5
    then unexpected ErrorCode.parse_invalid_ipv4_header_length
    else transport_verdict 1 frame (o + words * 4) number)

-- The version is the high half of the first byte, the header length in words the low half.
unfoldable pub ipv4_verdict : List ℕ → ℕ → Status
ipv4_verdict frame o = ipv4_by frame o (u8 frame o / 16) (u8 frame o % 16) (u8 frame (o + 9))

unfoldable pub ipv6_by : List ℕ → ℕ → ℕ → ℕ → Status
ipv6_by frame o version number = need frame (o + 40) ErrorCode.parse_ipv6_too_short (
    if not (version == 6)
    then unexpected ErrorCode.parse_invalid_ipv6_version
    else transport_verdict 58 frame (o + 40) number)

unfoldable pub ipv6_verdict : List ℕ → ℕ → Status
ipv6_verdict frame o = ipv6_by frame o (u8 frame o / 16) (u8 frame (o + 6))

unfoldable pub arp_by : List ℕ → ℕ → ℕ → ℕ → Status
arp_by frame o hlen plen =
    need frame (o + 8) ErrorCode.parse_arp_too_short
      (need frame (o + (8 + 2 * (hlen + plen))) ErrorCode.parse_invalid_arp_header_length done)

unfoldable pub arp_verdict : List ℕ → ℕ → Status
arp_verdict frame o = arp_by frame o (u8 frame (o + 4)) (u8 frame (o + 5))

unfoldable pub network_verdict : List ℕ → ℕ → ℕ → Status
network_verdict frame o ether_type =
    if ether_type == 0x0800
    then ipv4_verdict frame o
    else if ether_type == 0x86dd
    then ipv6_verdict frame o
    else if ether_type == 0x0806
    then arp_verdict frame o
    else unexpected ErrorCode.parse_unsupported_ether_type

unfoldable pub verdict : List ℕ → Status
verdict frame = need frame 14 ErrorCode.parse_ethernet_too_short (
    if wire16 frame 12 == 0x8100 || wire16 frame 12 == 0x88a8
    then need frame 18 ErrorCode.parse_truncated (network_verdict frame 18 (wire16 frame 16))
    else network_verdict frame 14 (wire16 frame 12))
