-- ===== src/Parser/Tests.antt =====
-- The parser at concrete frames.
use vnic.Prelude.{ℕ, ◌≡◌, false, List, [], ◌∷◌, ◌++◌, Returns, replicate, arith}
use vnic.Parser.State.{Parser, fresh_l1, fresh_l2, fresh_l3, zero_mac, L1Protocol}
use vnic.Parser.Parse.{parse}
use vnic.Parser.Tags.{Tagged, parse-Tagged, parse-independent}
use vnic.Parser.Complete.{Complete, parse-Complete}
use vnic.Parser.Answer.{verdict}
use vnic.Parser.Verdict.{Answers, parse-verdict}

-- `Parser()`
abbrev new_parser : Parser
new_parser = record {
  l1 = fresh_l1;
  l2 = fresh_l2;
  l3 = fresh_l3;
  l2_offset = 0;
  arp_sender_hw = zero_mac;
  arp_target_hw = zero_mac;
  arp_sender_proto = 0;
  arp_target_proto = 0;
  has_arp_addresses = false;
}

-- A parser that still holds the tag of an earlier frame.
abbrev used_parser : Parser
used_parser = record new_parser {
  l1 = record fresh_l1 { protocol = L1Protocol.vlan; vlan_id = 7 };
  l2_offset = 18;
}

-- UDP over IPv4 behind the VLAN tag 100.
abbrev udp_frame : List ℕ
udp_frame =
    replicate 6 0xff
    ++ (2 ∷ 0 ∷ 0 ∷ 0 ∷ 0 ∷ 1 ∷ [])
    ++ (0x81 ∷ 0 ∷ 0x60 ∷ 100 ∷ 8 ∷ 0 ∷ [])
    ++ (0x45 ∷ 0 ∷ 0 ∷ 28 ∷ 0 ∷ 1 ∷ 0 ∷ 0 ∷ 64 ∷ 17 ∷ 0xe3 ∷ 0xe8 ∷ [])
    ++ (192 ∷ 168 ∷ 0 ∷ 1 ∷ 192 ∷ 168 ∷ 0 ∷ 2 ∷ [])
    ++ (0x10 ∷ 0 ∷ 0 ∷ 53 ∷ 0 ∷ 8 ∷ 0 ∷ 0 ∷ [])

-- An IPv4 frame whose version field is 6.
abbrev wrong_version : List ℕ
wrong_version = replicate 12 1 ++ (8 ∷ 0 ∷ 0x65 ∷ []) ++ replicate 30 0

parse-Tagged_example : Returns Tagged (parse new_parser udp_frame)
parse-Tagged_example = parse-Tagged new_parser udp_frame

parse-independent_example : parse used_parser wrong_version ≡ parse new_parser wrong_version
parse-independent_example = parse-independent used_parser new_parser wrong_version

parse-Complete_example : Returns (Complete udp_frame) (parse used_parser udp_frame)
parse-Complete_example = parse-Complete used_parser udp_frame

parse-verdict_example : Answers (verdict wrong_version) (parse new_parser wrong_version)
parse-verdict_example = parse-verdict new_parser wrong_version (ground arith)
