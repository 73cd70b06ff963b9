-- ===== src/Parser/Verdict.antt =====
-- `Parser::parse` answers as the wire format says.
use vnic.Prelude.{
  ℕ, ◌+◌, ◌*◌, ◌/◌, ◌%◌, ◌≤◌, ◌≡◌, refl, Bool, true, false, not, Bool-cases, ltb→ge, inl, inr, List,
  some, arith, length, Returns, ltb, ◌==◌, if◌then◌else◌,
}
use vnic.ErrorCode.{ErrorCode, Status, unexpected}
use vnic.Net.Bytes.{IsBytes, ntohs, loaded, read_bytes_inside, load_unaligned_inside}
use vnic.Net.Wire.{wire16, field, first, ntohs-field}
use vnic.Net.Headers.{
  IpHdr, Ipv6Hdr, eth_pod, be16_pod, be32_pod, ip_pod, ip6_pod, arp_pod, tcp_pod, udp_pod, icmp_pod,
}
use vnic.Parser.State.{Parser, L1Protocol, L2Protocol, reset}
use vnic.Parser.Parse.{
  Parsed, parse_tcp, parse_udp, parse_icmp, parse_l4, parse_ipv4, parse_ipv6, load_arp_addresses,
  parse_arp, parse_l2, parse_vlan, parse,
}
use vnic.Parser.Answer.{
  need, transport_verdict, ipv4_by, ipv4_verdict, ipv6_by, ipv6_verdict, arp_by, arp_verdict,
  network_verdict, verdict,
}

abbrev Says : Status → Parser × Status → Type 0
Says v (q, s) = s ≡ v

abbrev pub Answers : Status → Parsed → Type 0
Answers v = Returns (Says v)

parse_l4-Says :
    (icmp : ℕ) (p : Parser) (frame : List ℕ) (o number : ℕ)
    → Returns (Says (transport_verdict icmp frame o number)) (parse_l4 icmp p frame o number)
unfolding transport_verdict parse_l4 parse_tcp parse_udp parse_icmp
parse_l4-Says icmp p frame o number = ground (
  arith,
  load_unaligned_inside tcp_pod frame o,
  load_unaligned_inside udp_pod frame o,
  load_unaligned_inside icmp_pod frame o,
)

words_test : (n : ℕ) → ltb n 5 ≡ ltb (n * 4) 20
words_test n = ground arith

-- A test that the verdict and the code share.
Answers-if :
    (b : Bool) (v w : Status) (r s : Parsed)
    → Answers v r
    → Answers w s
    → Answers (if b then v else w) (if b then r else s)
Answers-if true v w r s h k = h
Answers-if false v w r s h k = k

-- A length check that the verdict and the code share.
Answers-need :
    (frame : List ℕ) (n : ℕ) (e : ErrorCode) (v : Status) (p : Parser) (r : Parsed)
    → (n ≤ length frame → Answers v r)
    → Answers (need frame n e v) (if ltb (length frame) n then some (p, unexpected e) else r)
Answers-need frame n e v p r h = elim (Bool-cases (ltb (length frame) n)) [
  | inl short ↦ rw short refl
  | inr long ↦ rw long (h (ltb→ge _ _ long))
]

ipv4_header-Says :
    (p : Parser) (frame : List ℕ) (o : ℕ)
    → let h = loaded ip_pod frame o in
      Answers (ipv4_by frame o h.version h.ihl h.protocol) (parse_ipv4 p frame o)
unfolding ipv4_by parse_ipv4
ipv4_header-Says p frame o = Answers-need frame (o + 20) _ _ p _ λ long.
    rw (load_unaligned_inside ip_pod frame o long) (
      Answers-if (not (h.version == 4)) _ _ _ _ refl (
        rw (words_test h.ihl) (
          Answers-if (ltb (h.ihl * 4) 20) _ _ _ _ refl (
            parse_l4-Says 1
              (record p { l2 = record (p.l2) { protocol = L2Protocol.ipv4; ip = some h } }) frame
              (o + h.ihl * 4) h.protocol))))
  where
    h : IpHdr
    h = loaded ip_pod frame o

ipv6_header-Says :
    (p : Parser) (frame : List ℕ) (o : ℕ)
    → let h = loaded ip6_pod frame o in
      Answers (ipv6_by frame o h.version h.nexthdr) (parse_ipv6 p frame o)
unfolding ipv6_by parse_ipv6
ipv6_header-Says p frame o = Answers-need frame (o + 40) _ _ p _ λ long.
    rw (load_unaligned_inside ip6_pod frame o long) (
      Answers-if (not (h.version == 6)) _ _ _ _ refl (
        parse_l4-Says 58
          (record p { l2 = record (p.l2) { protocol = L2Protocol.ipv6; ip6 = some h } }) frame
          (o + 40) h.nexthdr))
  where
    h : Ipv6Hdr
    h = loaded ip6_pod frame o

arp_header-Says :
    (p : Parser) (frame : List ℕ) (o : ℕ)
    → let h = loaded arp_pod frame o in
      Answers (arp_by frame o h.ar_hln h.ar_pln) (parse_arp p frame o)
unfolding arp_by parse_arp load_arp_addresses
arp_header-Says p frame o = ground (
  arith,
  load_unaligned_inside arp_pod frame o,
  read_bytes_inside frame (o + 8) 6,
  read_bytes_inside frame (o + 8 + 10) 6,
  load_unaligned_inside be32_pod frame (o + 8 + 6),
  load_unaligned_inside be32_pod frame (o + 8 + 16),
)

parse_ipv4-Says :
    (p : Parser) (frame : List ℕ) (o : ℕ) → Answers (ipv4_verdict frame o) (parse_ipv4 p frame o)
unfolding ipv4_verdict
parse_ipv4-Says p frame o =
    rw (← first 20 o frame (omega arith), ← field 20 o 9 frame (omega arith))
      (ipv4_header-Says p frame o)

parse_ipv6-Says :
    (p : Parser) (frame : List ℕ) (o : ℕ) → Answers (ipv6_verdict frame o) (parse_ipv6 p frame o)
unfolding ipv6_verdict
parse_ipv6-Says p frame o =
    rw (← first 40 o frame (omega arith), ← field 40 o 6 frame (omega arith))
      (ipv6_header-Says p frame o)

parse_arp-Says :
    (p : Parser) (frame : List ℕ) (o : ℕ) → Answers (arp_verdict frame o) (parse_arp p frame o)
unfolding arp_verdict
parse_arp-Says p frame o =
    rw (← field 8 o 4 frame (omega arith), ← field 8 o 5 frame (omega arith))
      (arp_header-Says p frame o)

parse_l2-Says :
    (p : Parser) (frame : List ℕ) (o ether_type : ℕ)
    → Answers (network_verdict frame o ether_type) (parse_l2 p frame o ether_type)
unfolding network_verdict parse_l2
parse_l2-Says q frame o ether_type =
    let p = record q { l2_offset = o } in
    ground (arith, parse_ipv4-Says p frame o, parse_ipv6-Says p frame o, parse_arp-Says p frame o)

parse_vlan-Says :
    (p : Parser) (frame : List ℕ)
    → IsBytes frame
    → Answers
        (need frame 18 ErrorCode.parse_truncated (network_verdict frame 18 (wire16 frame 16)))
        (parse_vlan p frame)
unfolding parse_vlan
parse_vlan-Says p frame b =
    let tci = ntohs (loaded be16_pod frame 14) in
    let tag = record (p.l1) {
      protocol = L1Protocol.vlan;
      vlan_id = tci % 4096;
      vlan_pcp = tci / 8192 % 8;
    } in
    rw (← ntohs-field 2 16 0 frame (omega arith) b) (
      ground (
        arith,
        load_unaligned_inside be16_pod frame 14,
        load_unaligned_inside be16_pod frame 16,
        parse_l2-Says (record p { l1 = tag }) frame 18 (ntohs (loaded be16_pod frame 16)),
      ))

-- For every frame of bytes the parser answers as the wire format says: the first of its checks
-- that fails gives the error, by the bytes at their offsets, and otherwise the parse succeeds.
pub parse-verdict :
    (p : Parser) (frame : List ℕ) → IsBytes frame → Answers (verdict frame) (parse p frame)
unfolding parse reset verdict
parse-verdict q frame b =
    let h = loaded eth_pod frame 0 in
    let p = record (reset q) {
      l1 = record ((reset q).l1) { protocol = L1Protocol.eth; eth = some h };
    } in
    rw (← ntohs-field 14 0 12 frame (omega arith) b) (
      ground (
        arith,
        load_unaligned_inside eth_pod frame 0,
        parse_vlan-Says p frame b,
        parse_l2-Says p frame 14 (ntohs h.h_proto),
      ))
