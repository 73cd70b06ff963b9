-- ===== src/Net/Layout.antt =====
-- The bytes of the headers that the code stores: how a little-endian machine lays them out.
use vnic.Prelude.{ℕ, ◌+◌, ◌*◌, ◌/◌, ◌%◌, ◌^◌, ◌<◌, ◌≡◌, refl, arith, List, [], ◌∷◌, ◌++◌}
use vnic.Net.Headers.{EthHdr, IpHdr, UdpHdr, ip_pod, udp_pod}

-- The bytes of host integers in memory.
abbrev pub le16 : ℕ → List ℕ
le16 x = x % 256 ∷ x / 256 % 256 ∷ []

abbrev pub le32 : ℕ → List ℕ
le32 x = x % 256 ∷ x / 256 % 256 ∷ x / 65536 % 256 ∷ x / 16777216 % 256 ∷ []

-- The bytes of the headers that are stored.
abbrev pub eth_bytes : EthHdr → List ℕ
eth_bytes h = h.h_dest ++ (h.h_source ++ le16 h.h_proto)

abbrev pub ip_bytes : IpHdr → List ℕ
ip_bytes h =
    (h.version * 16 + h.ihl)
    ∷ h.tos
    ∷ (le16 h.tot_len
        ++ (le16 h.id
            ++ (le16 h.frag_off
                ++ (h.ttl ∷ h.protocol ∷ (le16 h.check ++ (le32 h.saddr ++ le32 h.daddr))))))

abbrev pub udp_bytes : UdpHdr → List ℕ
udp_bytes h = le16 h.source ++ (le16 h.dest ++ (le16 h.len ++ le16 h.check))

-- A header whose fields have their widths.
pub record IsIpHdr (h : IpHdr) : Type 0 where
  pub version : h.version < 16
  pub ihl : h.ihl < 16
  pub tot_len : h.tot_len < 65536
  pub id : h.id < 65536
  pub frag_off : h.frag_off < 65536
  pub check : h.check < 65536
  pub saddr : h.saddr < 2 ^ 32
  pub daddr : h.daddr < 2 ^ 32

pub record IsUdpHdr (h : UdpHdr) : Type 0 where
  pub source : h.source < 65536
  pub dest : h.dest < 65536
  pub len : h.len < 65536
  pub check : h.check < 65536

from_le16 : (x : ℕ) → x < 65536 → x % 256 + 256 * (x / 256 % 256) ≡ x
from_le16 x h = omega (arith, h)

from_le32 :
    (x : ℕ)
    → x < 2 ^ 32
    → x % 256 + 256 * (x / 256 % 256) + 65536 * (x / 65536 % 256 + 256 * (x / 16777216 % 256)) ≡ x
from_le32 x h = omega (arith, h)

high_half : (a b : ℕ) → b < 16 → (a * 16 + b) / 16 ≡ a
high_half a b h = omega (arith, h)

low_half : (a b : ℕ) → b < 16 → (a * 16 + b) % 16 ≡ b
low_half a b h = omega (arith, h)

-- What is loaded from the bytes of a header is the header.
pub ip_pod-ip_bytes : (h : IpHdr) → IsIpHdr h → ip_pod.decode (ip_bytes h) ≡ h
ip_pod-ip_bytes h r =
    rw
      (
        high_half h.version h.ihl r.ihl,
        low_half h.version h.ihl r.ihl,
        from_le16 h.tot_len r.tot_len,
        from_le16 h.id r.id,
        from_le16 h.frag_off r.frag_off,
        from_le16 h.check r.check,
        from_le32 h.saddr r.saddr,
        from_le32 h.daddr r.daddr,
      )
      refl

pub udp_pod-udp_bytes : (h : UdpHdr) → IsUdpHdr h → udp_pod.decode (udp_bytes h) ≡ h
udp_pod-udp_bytes h r =
    rw
      (
        from_le16 h.source r.source,
        from_le16 h.dest r.dest,
        from_le16 h.len r.len,
        from_le16 h.check r.check,
      )
      refl
