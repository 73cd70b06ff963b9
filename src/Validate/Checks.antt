-- ===== src/Validate/Checks.antt =====
-- The checks of src/validate/validate.cpp, each of one condition; `true` lets the frame pass.
use vnic.Prelude.{
  ℕ, ◌+◌, ◌*◌, ◌%◌, Bool, true, false, not, ◌&&◌, List, [], ◌∷◌, Option, some, length, replicate,
  ltb, leb, ◌==◌, if◌then◌else◌,
}
use vnic.Net.Bytes.{u8, ntohs}
use vnic.Parser.State.{Parser, L1Protocol}
use vnic.Parser.Accessors.{eth, vlan_id, ipv4}

-- `std::sscanf(mac.c_str(), "%x:%x:%x:%x:%x:%x", …)`: the numbers that it stores, in order. The
-- call returns how many there are.
module _ {ℓ} {Text : Type ℓ} (scan_mac : Text → List ℕ) where
  -- The loop of `ParseMac` over the six parts.
  unfoldable pub mac_octets : List ℕ → Option (List ℕ)
  mac_octets [] = some []
  mac_octets (part ∷ parts) =
      let rest = mac_octets parts in
      if ltb 0xff part
      then Option.none
      else elim rest [ some octets ↦ some (part % 256 ∷ octets) | Option.none ↦ Option.none ]

  -- `ParseMac`
  unfoldable pub parse_mac : Text → Option (List ℕ)
  parse_mac mac =
      if not (length (scan_mac mac) == 6) then Option.none else mac_octets (scan_mac mac)

-- `std::memcmp(…) == 0` of two arrays of one length.
unfoldable pub bytes_equal : List ℕ → List ℕ → Bool
bytes_equal [] bs = true
bytes_equal (a ∷ as') [] = true
bytes_equal (a ∷ as') (b ∷ bs) = a == b && bytes_equal as' bs

abbrev pub broadcast_mac : List ℕ
broadcast_mac = replicate 6 0xff

-- `IsBroadcast`
unfoldable pub is_broadcast : List ℕ → Bool
is_broadcast mac = bytes_equal mac broadcast_mac

-- `IsMulticast`: the I/G bit, which is the lowest of the first byte.
unfoldable pub is_multicast : List ℕ → Bool
is_multicast mac = not (u8 mac 0 % 2 == 0)

-- `parser.l2Offset() != 0 ? parser.l2Offset() : 14`
unfoldable pub l2_header_bytes : Parser → ℕ
l2_header_bytes p = if p.l2_offset == 0 then 14 else p.l2_offset

-- `CheckFrameSize`
unfoldable pub check_frame_size : List ℕ → Parser → ℕ → ℕ → Bool
unfolding l2_header_bytes
check_frame_size packet p min_frame_size mtu =
    leb min_frame_size (length packet) && leb (length packet) (l2_header_bytes p + mtu)

-- `CheckFcs`: the link carries no frame check sequence.
unfoldable pub check_fcs : List ℕ → Bool
check_fcs packet = true

-- `CheckDstMac`
unfoldable pub check_dst_mac : Parser → List ℕ → Bool → Bool
check_dst_mac p mac_addr promiscuous_enabled = if promiscuous_enabled then true else elim (eth p) [
  | Option.none ↦ true
  | some h ↦
      if bytes_equal h.h_dest mac_addr
      then true
      else if is_broadcast h.h_dest
      then true
      else if is_multicast h.h_dest
      then true
      else false
]

-- The loop of `CheckVlanFilter`.
unfoldable pub any_allowed : List ℕ → ℕ → Bool
any_allowed [] vlan = false
any_allowed (allowed ∷ rest) vlan = if allowed == vlan then true else any_allowed rest vlan

-- `CheckVlanFilter`
unfoldable pub check_vlan_filter : Parser → List ℕ → Bool
check_vlan_filter p allow_list = elim p.l1.protocol [
  | L1Protocol.vlan ↦ if length allow_list == 0 then true else any_allowed allow_list (vlan_id p)
  | _ ↦ true
]

-- `CheckIpTotalLength`; of a packet that is not IPv4 there is nothing to check.
unfoldable pub check_ip_total_length : List ℕ → Parser → Bool
check_ip_total_length packet p = elim (ipv4 p) [
  | Option.none ↦ true
  | some ip ↦
      let header_bytes = ip.ihl * 4 in
      let total_length = ntohs ip.tot_len in
      if ltb header_bytes 20
      then false
      else if ltb total_length header_bytes
      then false
      else if ltb (length packet) (p.l2_offset + total_length)
      then false
      else true
]
