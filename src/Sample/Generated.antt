-- ===== src/Sample/Generated.antt =====
-- Packets of the generator against the parser and the checks of the port.
use mathlib.Core.Path.{subst}
use vnic.Prelude.{
  ℕ, ◌+◌, ◌^◌, ◌≤◌, ◌<◌, ◌≡◌, sym, ◌∙◌, ap, arith, List, [], ◌∷◌, ◌++◌, ◌%◌, map, Option, true,
  some, All-append, ◌>>=◌, length, drop, Returns, Returns-mono,
}
use vnic.ErrorCode.{done}
use vnic.Net.Bytes.{IsByte, IsBytes, ntohs}
use vnic.Net.Layout.{le16, eth_bytes, ip_bytes, udp_bytes}
use vnic.Validate.Checksum.{word_sum, is_ones_complement_zero}
use vnic.Parser.State.{Parser}
use vnic.Parser.Parse.{parse}
use vnic.Port.State.{Port}
use vnic.Port.Receive.{validate}
use vnic.Port.Admission.{validate-admission}
use vnic.Sample.Udp.{udp_eth, udp_ip, udp_header, make_udp_packet}
use vnic.Sample.Frame.{parts, six}
use vnic.Sample.Parsed.{udp_parser}
use vnic.Sample.Facts.{layout, admitted, runt_answer, Takes}
use vnic.Sample.Roundtrip.{
  parse-udp_packet, Made, made, make_udp_packet-Made, ip_bytes-IsBytes, udp_bytes-IsBytes,
}

map-IsBytes : (xs : List ℕ) → IsBytes (map (λ part. part % 256) xs)
map-IsBytes [] = tt
map-IsBytes (x ∷ xs) = (omega arith, map-IsBytes xs)

-- The texts are addresses: two of six parts, and two of 32 bits.
pub record IsResolved {ℓ} {Text : Type ℓ} (scan_mac : Text → List ℕ) (inet_pton : Text → Option ℕ)
    (src_mac dst_mac src_ip dst_ip : Text) (saddr daddr : ℕ) : Type 0 where
  pub source : length (scan_mac src_mac) ≡ 6
  pub dest : length (scan_mac dst_mac) ≡ 6
  pub src_found : inet_pton src_ip ≡ some saddr
  pub dst_found : inet_pton dst_ip ≡ some daddr
  pub saddr_word : saddr < 2 ^ 32
  pub daddr_word : daddr < 2 ^ 32

module _ {ℓ} {Text : Type ℓ} (scan_mac : Text → List ℕ) (inet_pton : Text → Option ℕ)
    (src_mac dst_mac src_ip dst_ip : Text) (src_port dst_port : ℕ) (payload : List ℕ)
    (saddr daddr : ℕ)
    (r : IsResolved scan_mac inet_pton src_mac dst_mac src_ip dst_ip saddr daddr) where
  abbrev dest : List ℕ
  dest = parts scan_mac inet_pton dst_mac

  abbrev source : List ℕ
  source = parts scan_mac inet_pton src_mac

  abbrev made_with : ℕ → List ℕ
  made_with check =
      made scan_mac inet_pton src_mac dst_mac src_ip dst_ip src_port dst_port payload saddr daddr
        check

  -- Whatever holds of the packet with a right checksum holds of what `MakeUdpPacket` leaves.
  by_made :
      (P : List ℕ → Type 0)
      → ((check : ℕ)
          → check < 65536
          → is_ones_complement_zero (word_sum (made_with check) 14 10) ≡ true
          → P (made_with check))
      → Returns P (
          make_udp_packet scan_mac inet_pton src_mac dst_mac src_ip dst_ip src_port dst_port
            payload)
  by_made P each =
      Returns-mono
        (Made scan_mac inet_pton src_mac dst_mac src_ip dst_ip src_port dst_port payload saddr
          daddr)
        P _
        (make_udp_packet-Made scan_mac inet_pton src_mac dst_mac src_ip dst_ip src_port dst_port
          payload saddr daddr r.source r.dest r.src_found r.dst_found r.saddr_word r.daddr_word)
        (λ packet m.
          subst P (sym m.2)
            (each m.0 m.1 (ap (λ f. is_ones_complement_zero (word_sum f 14 10)) (sym m.2) ∙ m.3)))

  -- The parser after such a packet.
  abbrev pub parsed_with : Parser → ℕ → Parser
  parsed_with q check =
      udp_parser q (udp_eth dest source) (udp_ip (length payload) saddr daddr check)
        (udp_header (length payload) src_port dst_port)

  parse_made :
      (q : Parser) (check : ℕ)
      → check < 65536
      → parse q (made_with check) ≡ some (parsed_with q check, done)
  parse_made q check word =
      parse-udp_packet saddr daddr check src_port dst_port payload r.saddr_word r.daddr_word word q
        dest source (six scan_mac inet_pton dst_mac r.dest)
        (six scan_mac inet_pton src_mac r.source)

  -- For texts that are addresses, `MakeUdpPacket` is defined whatever the payload is, and `parse`
  -- accepts its packet: the parser then holds the Ethernet, IPv4 and UDP header that were stored, with
  -- the addresses in them, and nothing else, whatever it held before; behind the 42 bytes of the
  -- headers stands the payload.
  pub make_udp_packet-parse :
      (q : Parser)
      → Returns
          (λ packet.
            (drop 42 packet ≡ payload)
            × ((check : ℕ) × (parse q packet ≡ some (parsed_with q check, done))))
          (make_udp_packet scan_mac inet_pton src_mac dst_mac src_ip dst_ip src_port dst_port
            payload)
  make_udp_packet-parse q = by_made _ (λ check word sum. (
    (layout saddr daddr check src_port dst_port payload dest source
        (six scan_mac inet_pton dst_mac r.dest) (six scan_mac inet_pton src_mac r.source)).1,
    (check, parse_made q check word),
  ))

  module _ {κ} {Name : Type κ} (port : Port Name) (b : IsBytes payload)
      (high : 28 + length payload < 65536) (mtu : 28 + length payload ≤ port.config.mtu)
      (takes : Takes port dest) where
    made_with-IsBytes : (check : ℕ) → check < 65536 → IsBytes (made_with check)
    made_with-IsBytes check word =
        let ip = ip_bytes (udp_ip (length payload) saddr daddr check) in
        let udp = udp_bytes (udp_header (length payload) src_port dst_port) in
        All-append IsByte (eth_bytes (udp_eth dest source)) (ip ++ (udp ++ payload))
          (All-append IsByte dest (source ++ le16 (ntohs 0x0800)) (map-IsBytes (scan_mac dst_mac)) (
            All-append IsByte source (le16 (ntohs 0x0800)) (map-IsBytes (scan_mac src_mac))
              (omega arith, (omega arith, tt))))
          (All-append IsByte ip (udp ++ payload)
            (ip_bytes-IsBytes saddr daddr check src_port dst_port payload r.saddr_word r.daddr_word
              word)
            (All-append IsByte udp payload
              (udp_bytes-IsBytes saddr daddr check src_port dst_port payload r.saddr_word
                r.daddr_word word)
              b))

    -- A packet of the generator parses, and `VNic::validate` passes it, the checksum that the generator
    -- computed included, exactly if its payload has at least 18 bytes; a smaller one is refused as too
    -- short. The payload consists of bytes and, with its headers, fits into the MTU and into 16 bits, the
    -- texts are addresses, and the port is promiscuous or has the destination address.
    pub make_udp_packet-validate :
        (q : Parser)
        → Returns
            (λ packet.
              (parse q packet >>= λ parsed. validate packet parsed.0 port)
              ≡ some (runt_answer (length payload)))
            (make_udp_packet scan_mac inet_pton src_mac dst_mac src_ip dst_ip src_port dst_port
              payload)
    make_udp_packet-validate q = by_made _ (λ check word sum.
        let (len, behind, at_dest, ihl, total) =
          layout saddr daddr check src_port dst_port payload dest source
            (six scan_mac inet_pton dst_mac r.dest) (six scan_mac inet_pton src_mac r.source) in
        ap (λ o. o >>= λ parsed. validate (made_with check) parsed.0 port) (parse_made q check word)
        ∙ validate-admission q (parsed_with q check) (made_with check) port
            (made_with-IsBytes check word) (parse_made q check word)
        ∙ ap (λ s. some s)
            (admitted (made_with check) dest (length payload) port len high mtu takes at_dest ihl
              total sum))
