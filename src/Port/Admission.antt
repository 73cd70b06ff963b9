-- ===== src/Port/Admission.antt =====
-- Which frames `VNic::validate` lets pass, said of the bytes on the wire.
use mathlib.Core.Path.{subst}
use vnic.Prelude.{
  ℕ, ◌+◌, ◌*◌, ◌%◌, ◌≡◌, refl, arith, Bool, true, false, not, ◌&&◌, ◌||◌, inl, inr, List, [], ◌∷◌,
  Option, some, ◌>>=◌, length, take, get_or, ltb, leb, ◌==◌, if◌then◌else◌, Returns, Bool-cases,
}
use vnic.ErrorCode.{ErrorCode, Status, unexpected, done}
use vnic.Net.Bytes.{IsBytes, u8, loaded}
use vnic.Net.Wire.{wire16, first, ntohs-field, get_or-take, take-take}
use vnic.Net.Headers.{eth_pod, ip_pod}
use vnic.Parser.State.{Parser, L1Protocol, L2Protocol}
use vnic.Parser.Accessors.{eth, vlan_id, ipv4}
use vnic.Parser.Parse.{parse}
use vnic.Parser.Tags.{is_ipv4}
use vnic.Parser.Complete.{LinkLayer, Network, Complete, parse-Complete}
use vnic.Validate.Checks.{
  check_frame_size, l2_header_bytes, check_fcs, check_dst_mac, check_vlan_filter, any_allowed,
  check_ip_total_length, bytes_equal, is_broadcast, is_multicast,
}
use vnic.Validate.Checksum.{
  check_ipv4_checksum, check_ipv4_checksum_lem, word_sum, is_ones_complement_zero,
}
use vnic.Port.State.{Port}
use vnic.Port.Receive.{validate}

-- The IPv4 header at `o`: at least five words, not longer than the packet that it announces, which
-- lies in the frame; and its words add up to zero in one's complement.
unfoldable pub ipv4_admission : List ℕ → ℕ → Status
ipv4_admission frame o =
    let header_bytes = u8 frame o % 16 * 4 in
    let total_length = wire16 frame (o + 2) in
    if not (
      leb 20 header_bytes && leb header_bytes total_length && leb (o + total_length) (length frame))
    then unexpected ErrorCode.validation_ip_total_length_invalid
    else if is_ones_complement_zero (word_sum frame o (u8 frame o % 16 * 2))
    then done
    else unexpected ErrorCode.validation_ipv4_checksum_invalid

-- The destination: anything in promiscuous mode, otherwise this port, everybody, or a group.
unfoldable pub is_addressed : Bool → List ℕ → List ℕ → Bool
is_addressed promiscuous mac frame =
    promiscuous
    || bytes_equal (take 6 frame) mac
    || bytes_equal (take 6 frame) (255 ∷ 255 ∷ 255 ∷ 255 ∷ 255 ∷ 255 ∷ [])
    || u8 frame 0 % 2 == 1

abbrev pub is_vlan : L1Protocol → Bool
is_vlan L1Protocol.vlan = true
is_vlan _ = false

module _ {ℓ} {Text : Type ℓ} where
  -- The answer, by the order of the checks; `o` is the offset of the network layer.
  unfoldable pub admission : List ℕ → ℕ → L1Protocol → L2Protocol → Port Text → Status
  admission frame o l1 l2 port =
      if ltb (o + port.config.mtu) (length frame)
      then unexpected ErrorCode.validation_frame_too_long
      else if ltb (length frame) 60
      then unexpected ErrorCode.validation_frame_too_short
      else if not (is_addressed port.config.promiscuous_enabled port.mac_addr frame)
      then unexpected ErrorCode.validation_dst_mac_mismatch
      else if is_vlan l1
          && not (length port.config.vlan_allow_list == 0)
          && not (any_allowed port.config.vlan_allow_list (wire16 frame 14 % 4096))
      then unexpected ErrorCode.validation_vlan_rejected
      else if is_ipv4 l2
      then ipv4_admission frame o
      else done

-- What the checks say of a frame that has been parsed.
size_lem :
    (frame : List ℕ) (p : Parser) (mtu : ℕ)
    → LinkLayer frame p.l2_offset p.l1
    → l2_header_bytes p ≡ p.l2_offset
unfolding l2_header_bytes
size_lem frame p mtu link = ground arith

eth_lem :
    (frame : List ℕ) (p : Parser)
    → LinkLayer frame p.l2_offset p.l1
    → eth p ≡ some (loaded eth_pod frame 0)
unfolding eth
eth_lem frame p link = ground arith

vlan_lem :
    (frame : List ℕ) (p : Parser) (allowed : List ℕ)
    → IsBytes frame
    → LinkLayer frame p.l2_offset p.l1
    → check_vlan_filter p allowed
      ≡ not (
          is_vlan p.l1.protocol
          && not (length allowed == 0)
          && not (any_allowed allowed (wire16 frame 14 % 4096)))
unfolding check_vlan_filter vlan_id
vlan_lem frame p allowed b link = ground (arith, ntohs-field 2 14 0 frame, b)

dst_lem :
    (frame : List ℕ) (p : Parser) (mac : List ℕ) (promiscuous : Bool)
    → LinkLayer frame p.l2_offset p.l1
    → check_dst_mac p mac promiscuous ≡ is_addressed promiscuous mac frame
unfolding check_dst_mac is_addressed is_broadcast is_multicast
dst_lem frame p mac promiscuous link =
    rw (eth_lem frame p link, take-take 6 14 frame (omega arith), destination) (ground arith)
  where
    destination : get_or (take 6 frame) 0 0 ≡ get_or frame 0 0
    destination = get_or-take 6 0 frame (omega arith)

-- The IPv4 header that the parser holds.
ipv4_lem :
    (frame : List ℕ) (p : Parser)
    → Network frame p.l2_offset p.l2 p.l3
    → is_ipv4 p.l2.protocol ≡ true
    → ipv4 p ≡ some (loaded ip_pod frame p.l2_offset)
unfolding ipv4
ipv4_lem frame p net is = ground arith

not_ipv4_lem : (p : Parser) → is_ipv4 p.l2.protocol ≡ false → ipv4 p ≡ Option.none
unfolding ipv4
not_ipv4_lem p isnt = ground arith

abbrev checks_ip : List ℕ → Parser → Option Status
checks_ip frame p =
    if not (check_ip_total_length frame p)
    then some (unexpected ErrorCode.validation_ip_total_length_invalid)
    else (check_ipv4_checksum frame p >>= λ valid.
        some (if valid then done else unexpected ErrorCode.validation_ipv4_checksum_invalid))

total_lem :
    (frame : List ℕ) (p : Parser)
    → IsBytes frame
    → ipv4 p ≡ some (loaded ip_pod frame p.l2_offset)
    → check_ip_total_length frame p ≡ (
        let header_bytes = u8 frame p.l2_offset % 16 * 4 in
        let total_length = wire16 frame (p.l2_offset + 2) in
        leb 20 header_bytes
        && leb header_bytes total_length
        && leb (p.l2_offset + total_length) (length frame))
unfolding check_ip_total_length
total_lem frame p b e =
    rw
      (
        check_ip_total_length,
        e,
        ntohs-field 20 p.l2_offset 2 frame (omega arith) b,
        first 20 p.l2_offset frame (omega arith),
      )
      (ground arith)

ip_lem :
    (frame : List ℕ) (p : Parser)
    → IsBytes frame
    → Network frame p.l2_offset p.l2 p.l3
    → is_ipv4 p.l2.protocol ≡ true
    → checks_ip frame p ≡ some (ipv4_admission frame p.l2_offset)
unfolding ipv4_admission
ip_lem frame p b net is =
    rw
      (
        total_lem frame p b (ipv4_lem frame p net is),
        check_ipv4_checksum_lem frame p (loaded ip_pod frame p.l2_offset) b
            (ipv4_lem frame p net is) (omega arith),
        first 20 p.l2_offset frame (omega arith),
      )
      (ground arith)

no_ip_lem :
    (frame : List ℕ) (p : Parser) → is_ipv4 p.l2.protocol ≡ false → checks_ip frame p ≡ some done
unfolding check_ip_total_length check_ipv4_checksum
no_ip_lem frame p isnt = rw (check_ip_total_length, check_ipv4_checksum, not_ipv4_lem p isnt) refl

module _ {ℓ} {Text : Type ℓ} where
  validate_lem :
      (frame : List ℕ) (p : Parser) (port : Port Text)
      → IsBytes frame
      → Complete frame (p, done)
      → validate frame p port ≡ some (admission frame p.l2_offset p.l1.protocol p.l2.protocol port)
  unfolding validate admission check_frame_size check_fcs
  validate_lem frame p port b complete =
      rw
        (
          size_lem frame p port.config.mtu link,
          dst_lem frame p port.mac_addr port.config.promiscuous_enabled link,
          vlan_lem frame p port.config.vlan_allow_list b link,
          ip,
        )
        (ground arith)
    where
      link : LinkLayer frame p.l2_offset p.l1
      link = (complete refl).0

      ip :
          checks_ip frame p
          ≡ some (if is_ipv4 p.l2.protocol then ipv4_admission frame p.l2_offset else done)
      ip = elim (Bool-cases (is_ipv4 p.l2.protocol)) [
        | inl is ↦ rw is (ip_lem frame p b (complete refl).1 is)
        | inr isnt ↦ rw isnt (no_ip_lem frame p isnt)
      ]

  -- For a frame of bytes that the parser has accepted, `validate` is defined, and its answer is that of
  -- the first of these checks that fails: the frame is not longer than its link-layer header and the
  -- MTU; it has at least 60 bytes; in the absence of promiscuous mode its first six bytes are the
  -- port's address, all ones, or a group address; a VLAN id is in the list of the allowed ones if there
  -- is one; an IPv4 header has at least five words, the announced packet is not shorter than it and
  -- lies in the frame, and its words add up to zero in one's complement.
  pub validate-admission :
      (q p : Parser) (frame : List ℕ) (port : Port Text)
      → IsBytes frame
      → parse q frame ≡ some (p, done)
      → validate frame p port ≡ some (admission frame p.l2_offset p.l1.protocol p.l2.protocol port)
  validate-admission q p frame port b e =
      validate_lem frame p port b (subst (Returns (Complete frame)) e (parse-Complete q frame))
