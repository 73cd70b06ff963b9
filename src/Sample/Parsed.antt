-- ===== src/Sample/Parsed.antt =====
-- What `Parser::parse` makes of an IPv4 frame with a UDP datagram, by its headers.
use vnic.Prelude.{ℕ, ◌+◌, ◌≤◌, ◌≡◌, refl, ◌∙◌, ap, arith, List, some, length, ge→ltb}
use vnic.ErrorCode.{done}
use vnic.Net.Bytes.{ntohs, loaded, load_unaligned, load_unaligned_inside}
use vnic.Net.Headers.{EthHdr, IpHdr, UdpHdr, eth_pod, ip_pod, udp_pod}
use vnic.Parser.State.{
  Parser, L1Protocol, L2Protocol, L3Protocol, fresh_l1, fresh_l2, fresh_l3, reset,
}
use vnic.Sample.Udp.{udp_eth, udp_ip}
use vnic.Parser.Parse.{parse_udp, parse_l4, parse_ipv4, parse_l2, parse}

-- The parser that holds these headers and nothing else.
abbrev pub udp_parser : Parser → EthHdr → IpHdr → UdpHdr → Parser
udp_parser q eth ip udp = record (reset q) {
  l1 = record fresh_l1 { protocol = L1Protocol.eth; eth = some eth };
  l2 = record fresh_l2 { protocol = L2Protocol.ipv4; ip = some ip };
  l3 = record fresh_l3 { protocol = L3Protocol.udp; udp = some udp };
  l2_offset = 14;
}

load_is {ℓ} :
    {A : Type ℓ} (pod : vnic.Net.Bytes.Pod A) (frame : List ℕ) (offset : ℕ) (a : A)
    → offset + pod.sizeof ≤ length frame
    → loaded pod frame offset ≡ a
    → load_unaligned pod frame offset ≡ some a
load_is pod frame offset a h e = load_unaligned_inside pod frame offset h ∙ ap (λ v. some v) e

module _ (frame dest source : List ℕ) (payload_size saddr daddr check : ℕ) (udp : UdpHdr)
    (enough : 42 ≤ length frame) (eth_is : loaded eth_pod frame 0 ≡ udp_eth dest source)
    (ip_is : loaded ip_pod frame 14 ≡ udp_ip payload_size saddr daddr check)
    (udp_is : loaded udp_pod frame 34 ≡ udp) where
  abbrev ip : IpHdr
  ip = udp_ip payload_size saddr daddr check

  abbrev eth : EthHdr
  eth = udp_eth dest source

  parse_udp_lem :
      (p : Parser)
      → parse_udp p frame 34
        ≡ some (record p { l3 = record (p.l3) { protocol = L3Protocol.udp; udp = some udp } }, done)
  unfolding parse_udp
  parse_udp_lem p =
      rw
        (
          ge→ltb (length frame) (34 + 8) (omega (arith, enough)),
          load_is udp_pod frame 34 udp (omega (arith, enough)) udp_is,
        )
        refl

  parse_ipv4_lem :
      (p : Parser)
      → parse_ipv4 p frame 14
        ≡ some (
          record p {
            l2 = record (p.l2) { protocol = L2Protocol.ipv4; ip = some ip };
            l3 = record (p.l3) { protocol = L3Protocol.udp; udp = some udp };
          },
          done,
        )
  unfolding parse_ipv4 parse_l4
  parse_ipv4_lem p =
      rw
        (
          ge→ltb (length frame) (14 + 20) (omega (arith, enough)),
          load_is ip_pod frame 14 ip (omega (arith, enough)) ip_is,
        )
        (parse_udp_lem
          (record p { l2 = record (p.l2) { protocol = L2Protocol.ipv4; ip = some ip } }))

  -- The parse of such a frame succeeds.
  pub parse_lem : (q : Parser) → parse q frame ≡ some (udp_parser q eth ip udp, done)
  unfolding parse parse_l2 reset ntohs
  parse_lem q =
      rw
        (
          ge→ltb (length frame) 14 (omega (arith, enough)),
          load_is eth_pod frame 0 eth (omega (arith, enough)) eth_is,
        )
        (parse_ipv4_lem (record (reset q) {
          l1 = record fresh_l1 { protocol = L1Protocol.eth; eth = some eth };
          l2_offset = 14;
        }))
