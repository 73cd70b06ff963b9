-- ===== src/Sample/Tests.antt =====
-- The generator with numbers for texts: a MAC address of six equal parts, an address by its value.
use vnic.Prelude.{
  ℕ, ◌<◌, ◌≡◌, refl, arith, inl, List, [], ◌∷◌, ◌++◌, Option, some, ◌>>=◌, replicate, drop, true,
  Returns,
}
use vnic.ErrorCode.{done}
use vnic.Parser.Parse.{parse}
use vnic.Port.Poll.{new_parser}
use vnic.Port.Receive.{validate}
use vnic.Port.Scenario.{port}
use vnic.Validate.Checksum.{is_ones_complement_zero}
use vnic.Net.Layout.{le16}
use vnic.Sample.Udp.{make_udp_packet, compute_checksum}
use vnic.Sample.Checksum.{network_sum, compute_checksum_lem}
use vnic.Sample.Generated.{IsResolved, parsed_with, make_udp_packet-parse, make_udp_packet-validate}

abbrev scan_mac : ℕ → List ℕ
scan_mac part = replicate 6 part

abbrev inet_pton : ℕ → Option ℕ
inet_pton address = some address

abbrev payload : List ℕ
payload = replicate 18 7

abbrev resolved : IsResolved scan_mac inet_pton 0xbb 0xaa 1 2 1 2
resolved = record {
  source = refl;
  dest = refl;
  src_found = refl;
  dst_found = refl;
  saddr_word = omega arith;
  daddr_word = omega arith;
}

make_udp_packet-parse_example :
    Returns
      (λ packet.
        (drop 42 packet ≡ payload)
        × ((check : ℕ) × (parse new_parser packet
              ≡ some (
                parsed_with scan_mac inet_pton 0xbb 0xaa 1 2 1024 53 payload 1 2 resolved new_parser
                    check,
                done,
              ))))
      (make_udp_packet scan_mac inet_pton 0xbb 0xaa 1 2 1024 53 payload)
make_udp_packet-parse_example =
    make_udp_packet-parse scan_mac inet_pton 0xbb 0xaa 1 2 1024 53 payload 1 2 resolved new_parser

make_udp_packet-validate_example :
    Returns
      (λ packet. (parse new_parser packet >>= λ parsed. validate packet parsed.0 port) ≡ some done)
      (make_udp_packet scan_mac inet_pton 0xbb 0xaa 1 2 1024 53 payload)
make_udp_packet-validate_example =
    make_udp_packet-validate scan_mac inet_pton 0xbb 0xaa 1 2 1024 53 payload 1 2 resolved port
      (ground arith) (omega arith) (omega arith) (inl refl) new_parser

compute_checksum_lem_example :
    Returns
      (λ c.
        (c < 65536)
        × (is_ones_complement_zero (network_sum ((0x45 ∷ 0xff ∷ []) ++ (le16 c ++ (1 ∷ []))))
            ≡ true))
      (compute_checksum ((0x45 ∷ 0xff ∷ []) ++ (le16 0 ++ (1 ∷ []))))
compute_checksum_lem_example =
    compute_checksum_lem (0x45 ∷ 0xff ∷ []) (1 ∷ []) (ground arith) (omega arith) (omega arith)
