-- ===== src/Sample/Roundtrip.antt =====
-- `MakeUdpPacket` and then `Parser::parse`.
use vnic.Prelude.{
  ℕ, ◌+◌, ◌*◌, ◌%◌, ◌^◌, ◌<◌, ◌≡◌, refl, ◌∙◌, ap, arith, List, [], ◌∷◌, ◌++◌, Option, true, some,
  length, Returns,
}
use vnic.ErrorCode.{done}
use vnic.Net.Bytes.{ntohs, ntohs_lt, IsBytes}
use vnic.Net.Layout.{
  le16, le32, ip_bytes, udp_bytes, IsIpHdr, IsUdpHdr, ip_pod-ip_bytes, udp_pod-udp_bytes,
}
use vnic.Validate.Checksum.{word_sum, is_ones_complement_zero}
use vnic.Parser.State.{Parser}
use vnic.Parser.Parse.{parse}
use vnic.Sample.Udp.{udp_eth, udp_ip, udp_header, compute_checksum, make_udp_packet}
use vnic.Sample.Checksum.{network_sum, compute_checksum_lem}
use vnic.Sample.Frame.{udp_packet, parts, six, make_udp_packet-udp_packet}
use vnic.Sample.Parsed.{udp_parser, parse_lem}

-- A statement on lists of six follows from the one on six elements.
pub by_six :
    (P : List ℕ → Type 0)
    → ((a b c d e f : ℕ) → P (a ∷ b ∷ c ∷ d ∷ e ∷ f ∷ []))
    → (xs : List ℕ) → length xs ≡ 6
    → P xs
by_six P k (a ∷ b ∷ c ∷ d ∷ e ∷ f ∷ []) h = k a b c d e f
by_six P k [] h = absurd (omega (arith, h))
by_six P k (a ∷ []) h = absurd (omega (arith, h))
by_six P k (a ∷ b ∷ []) h = absurd (omega (arith, h))
by_six P k (a ∷ b ∷ c ∷ []) h = absurd (omega (arith, h))
by_six P k (a ∷ b ∷ c ∷ d ∷ []) h = absurd (omega (arith, h))
by_six P k (a ∷ b ∷ c ∷ d ∷ e ∷ []) h = absurd (omega (arith, h))
by_six P k (a ∷ b ∷ c ∷ d ∷ e ∷ f ∷ g ∷ xs) h = absurd (omega (arith, h))

module _ (saddr daddr check src_port dst_port : ℕ) (payload : List ℕ) (saddr_word : saddr < 2 ^ 32)
    (daddr_word : daddr < 2 ^ 32) (check_word : check < 65536) where
  abbrev packet : List ℕ → List ℕ → List ℕ
  packet dest source = udp_packet dest source saddr daddr check src_port dst_port payload

  ip_range : IsIpHdr (udp_ip (length payload) saddr daddr check)
  ip_range = record {
    version = omega arith;
    ihl = omega arith;
    tot_len = ntohs_lt _;
    id = ntohs_lt _;
    frag_off = ntohs_lt _;
    check = check_word;
    saddr = saddr_word;
    daddr = daddr_word;
  }

  udp_range : IsUdpHdr (udp_header (length payload) src_port dst_port)
  udp_range = record {
    source = ntohs_lt _;
    dest = ntohs_lt _;
    len = ntohs_lt _;
    check = omega arith;
  }

  -- What a parser holds after such a packet.
  abbrev pub Parses : Parser → List ℕ → List ℕ → Type 0
  Parses q dest source =
      parse q (packet dest source)
      ≡ some (
        udp_parser q (udp_eth dest source) (udp_ip (length payload) saddr daddr check)
            (udp_header (length payload) src_port dst_port),
        done,
      )

  parse_six :
      (q : Parser) (a b c d e f a' b' c' d' e' f' : ℕ)
      → Parses q (a ∷ b ∷ c ∷ d ∷ e ∷ f ∷ []) (a' ∷ b' ∷ c' ∷ d' ∷ e' ∷ f' ∷ [])
  unfolding ntohs
  parse_six q a b c d e f a' b' c' d' e' f' =
      let dest = a ∷ b ∷ c ∷ d ∷ e ∷ f ∷ [] in
      let source = a' ∷ b' ∷ c' ∷ d' ∷ e' ∷ f' ∷ [] in
      parse_lem (packet dest source) dest source (length payload) saddr daddr check
        (udp_header (length payload) src_port dst_port) (omega arith) refl
        (ip_pod-ip_bytes (udp_ip (length payload) saddr daddr check) ip_range)
        (udp_pod-udp_bytes (udp_header (length payload) src_port dst_port) udp_range) q

  pub parse-udp_packet :
      (q : Parser) (dest source : List ℕ)
      → length dest ≡ 6
      → length source ≡ 6
      → Parses q dest source
  parse-udp_packet q dest source d s =
      by_six (λ dest. Parses q dest source)
        (λ a b c d' e f.
          by_six (Parses q (a ∷ b ∷ c ∷ d' ∷ e ∷ f ∷ [])) (parse_six q a b c d' e f) source s)
        dest d

  -- The words of the IPv4 header.
  abbrev Sums : List ℕ → List ℕ → Type 0
  Sums dest source =
      word_sum (packet dest source) 14 10
      ≡ network_sum (ip_bytes (udp_ip (length payload) saddr daddr check))

  word_sum_six :
      (a b c d e f a' b' c' d' e' f' : ℕ)
      → Sums (a ∷ b ∷ c ∷ d ∷ e ∷ f ∷ []) (a' ∷ b' ∷ c' ∷ d' ∷ e' ∷ f' ∷ [])
  unfolding word_sum
  word_sum_six a b c d e f a' b' c' d' e' f' = refl

  pub word_sum-udp_packet :
      (dest source : List ℕ) → length dest ≡ 6 → length source ≡ 6 → Sums dest source
  word_sum-udp_packet dest source d s =
      by_six (λ dest. Sums dest source)
        (λ a b c d' e f.
          by_six (Sums (a ∷ b ∷ c ∷ d' ∷ e ∷ f ∷ [])) (word_sum_six a b c d' e f) source s)
        dest d

  pub ip_bytes-IsBytes : IsBytes (ip_bytes (udp_ip (length payload) saddr daddr check))
  ip_bytes-IsBytes = ground arith

  pub udp_bytes-IsBytes : IsBytes (udp_bytes (udp_header (length payload) src_port dst_port))
  udp_bytes-IsBytes = ground arith

-- The checksum of the header completes its words.
checksum_lem :
    (n saddr daddr : ℕ)
    → IsBytes (ip_bytes (udp_ip n saddr daddr 0))
    → Returns
        (λ c.
          (c < 65536)
          × (is_ones_complement_zero (network_sum (ip_bytes (udp_ip n saddr daddr c))) ≡ true))
        (compute_checksum (ip_bytes (udp_ip n saddr daddr 0)))
checksum_lem n saddr daddr i =
    let length16 = le16 (ntohs ((20 + 8 + n) % 2 ^ 16)) in
    compute_checksum_lem
      ((4 * 16 + 5) ∷ 0 ∷ (length16 ++ (le16 (ntohs 0) ++ (le16 (ntohs 0) ++ 64 ∷ 17 ∷ []))))
      (le32 saddr ++ le32 daddr) i (omega arith) (omega arith)

module _ {ℓ} {Text : Type ℓ} (scan_mac : Text → List ℕ) (inet_pton : Text → Option ℕ)
    (src_mac dst_mac src_ip dst_ip : Text) (src_port dst_port : ℕ) (payload : List ℕ)
    (saddr daddr : ℕ) where
  abbrev pub made : ℕ → List ℕ
  made check =
      udp_packet (parts scan_mac inet_pton dst_mac) (parts scan_mac inet_pton src_mac) saddr daddr
        check src_port dst_port payload

  -- What `MakeUdpPacket` leaves.
  abbrev pub Made : List ℕ → Type 0
  Made packet =
      (check : ℕ) × (check < 65536)
      × (packet ≡ made check)
      × (is_ones_complement_zero (word_sum packet 14 10) ≡ true)

  pub make_udp_packet-Made :
      length (scan_mac src_mac) ≡ 6
      → length (scan_mac dst_mac) ≡ 6
      → inet_pton src_ip ≡ some saddr
      → inet_pton dst_ip ≡ some daddr
      → saddr < 2 ^ 32
      → daddr < 2 ^ 32
      → Returns Made (
          make_udp_packet scan_mac inet_pton src_mac dst_mac src_ip dst_ip src_port dst_port
            payload)
  make_udp_packet-Made s d i j saddr_word daddr_word =
      built (compute_checksum (ip_bytes (udp_ip (length payload) saddr daddr 0))) refl (
        checksum_lem (length payload) saddr daddr (
          ip_bytes-IsBytes saddr daddr 0 src_port dst_port payload saddr_word daddr_word
            (omega arith)))
    where
      built :
          (o : Option ℕ)
          → compute_checksum (ip_bytes (udp_ip (length payload) saddr daddr 0)) ≡ o
          → Returns
              (λ c.
                (c < 65536)
                × (is_ones_complement_zero
                      (network_sum (ip_bytes (udp_ip (length payload) saddr daddr c)))
                    ≡ true))
              o
          → Returns Made (
              make_udp_packet scan_mac inet_pton src_mac dst_mac src_ip dst_ip src_port dst_port
                payload)
      built Option.none e post = elim post [ ]
      built (some check) e (word, zero') =
          rw
            (make_udp_packet-udp_packet scan_mac inet_pton src_mac dst_mac src_ip dst_ip src_port
              dst_port payload saddr daddr check s d i j e)
            (
              check,
              word,
              refl,
              ap is_ones_complement_zero (
                    word_sum-udp_packet saddr daddr check src_port dst_port payload saddr_word
                      daddr_word word (parts scan_mac inet_pton dst_mac)
                      (parts scan_mac inet_pton src_mac) (six scan_mac inet_pton dst_mac d)
                      (six scan_mac inet_pton src_mac s))
                  ∙ zero',
            )
