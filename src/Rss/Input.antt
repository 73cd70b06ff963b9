-- ===== src/Rss/Input.antt =====
-- The configuration types of include/rss/hash.h, the symmetric ordering of a tuple and the bytes
-- that are hashed (src/rss/hash.cpp).
use Prim.Native.Nat.{compare, Ordering}
use vnic.Prelude.{
  ℕ, ◌+◌, ◌/◌, ◌%◌, Option, some, length, leb, Bool, not, List, [], ◌∷◌, ◌++◌, ltb, ◌==◌,
  if◌then◌else◌, bit_and, bit_or,
}
use vnic.Net.Bytes.{ntohs, ntohl}
use vnic.Packet.FiveTuple.{FiveTuple}
use vnic.Rss.Protocol

-- `enum class HashFunc`
pub data HashFunc : Type 0 where
  none toeplitz simple_xor crc32 : HashFunc

-- `enum class SymmetryMode`
pub data SymmetryMode : Type 0 where
  none asymmetric symmetric : SymmetryMode

-- `HasIp`
unfoldable pub has_ip : ℕ → Bool
has_ip p = not (bit_and p (bit_or Protocol.ipv4 Protocol.ipv6) == 0)

-- `HasL4`
unfoldable pub has_l4 : ℕ → Bool
has_l4 p = not (bit_and p (bit_or (bit_or Protocol.tcp Protocol.udp) Protocol.sctp) == 0)

-- The bytes in memory of a `__be16` and of a `__be32`.
abbrev pub bytes16 : ℕ → List ℕ
bytes16 x = x % 256 ∷ x / 256 % 256 ∷ []

abbrev pub bytes32 : ℕ → List ℕ
bytes32 x = x % 256 ∷ x / 256 % 256 ∷ x / 65536 % 256 ∷ x / 16777216 % 256 ∷ []

-- `kMaxHashInputBytes`, the size of the array `out`.
abbrev pub max_hash_input_bytes : ℕ
max_hash_input_bytes = 16 + 16 + 2 + 2

-- What `BuildHashInput` copies, one piece behind the other.
unfoldable pub copied : FiveTuple → ℕ → List ℕ
copied t protocol =
    let addresses =
      if t.version == 6 then t.saddr6 ++ t.daddr6 else bytes32 t.saddr4 ++ bytes32 t.daddr4 in
    let ports : List ℕ = if has_l4 protocol then bytes16 t.sport ++ bytes16 t.dport else [] in
    if has_ip protocol then addresses ++ ports else []

-- `BuildHashInput`: the first `offset` bytes of `out`, which are those that are hashed. `none` is a
-- write past the end of `out`.
unfoldable pub build_hash_input : FiveTuple → ℕ → Option (List ℕ)
build_hash_input t protocol =
    if leb (length (copied t protocol)) max_hash_input_bytes
    then some (copied t protocol)
    else Option.none

-- `memcmp` of two arrays of one length.
unfoldable pub memcmp : List ℕ → List ℕ → Ordering
memcmp [] bs = Ordering.eq
memcmp (a ∷ as') [] = Ordering.eq
memcmp (a ∷ as') (b ∷ bs) =
    let rest = memcmp as' bs in
    elim (compare a b) [
      | Ordering.lt ↦ Ordering.lt
      | Ordering.gt ↦ Ordering.gt
      | Ordering.eq ↦ rest
    ]

abbrev pub swap_ports : FiveTuple → FiveTuple
swap_ports t = record t { sport = t.dport; dport = t.sport }

-- `MakeSymmetric`: the smaller address first, and between equal addresses the smaller port.
unfoldable pub make_symmetric : FiveTuple → FiveTuple
make_symmetric t =
    let ordered_ports = if ltb (ntohs t.dport) (ntohs t.sport) then swap_ports t else t in
    if t.version == 6
    then elim (memcmp t.saddr6 t.daddr6) [
      | Ordering.gt ↦ swap_ports (record t { saddr6 = t.daddr6; daddr6 = t.saddr6 })
      | Ordering.eq ↦ ordered_ports
      | Ordering.lt ↦ t
    ]
    else if ltb (ntohl t.daddr4) (ntohl t.saddr4)
    then swap_ports (record t { saddr4 = t.daddr4; daddr4 = t.saddr4 })
    else if ntohl t.saddr4 == ntohl t.daddr4
    then ordered_ports
    else t
