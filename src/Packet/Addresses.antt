-- ===== src/Packet/Addresses.antt =====
-- The addresses of a parsed frame are bytes of the frame.
use vnic.Prelude.{
  ◌⊎◌, ℕ, ◌≡◌, refl, arith, List, some, Option, Option-cases, inl, inr, take, drop, All, length,
  length-take, ◌≤◌,
}
use vnic.ErrorCode.{done}
use vnic.Net.Bytes.{IsByte, IsBytes, field_bytes, loaded}
use vnic.Net.Wire.{All-take, All-drop}
use vnic.Net.Headers.{ip6_pod}
use vnic.Parser.State.{Parser}
use vnic.Parser.Accessors.{ipv4, ipv6}
use vnic.Parser.Complete.{Network, Complete}
use vnic.Packet.FiveTuple.{FiveTuple, with_ports, get_5tuple}

-- An address consists of bytes, 16 at most.
abbrev IsAddress : List ℕ → Type 0
IsAddress a = All IsByte a × (length a ≤ 16)

abbrev pub Addressed : FiveTuple → Type 0
Addressed t = IsAddress t.saddr6 × IsAddress t.daddr6

with_ports-Addressed : (p : Parser) (t : FiveTuple) → Addressed t → Addressed (with_ports p t)
unfolding with_ports
with_ports-Addressed p t h = ground (arith, h)

ipv6-loaded :
    (frame : List ℕ) (p : Parser)
    → Network frame p.l2_offset p.l2 p.l3
    → (ipv6 p ≡ Option.none) ⊎ (ipv6 p ≡ some (loaded ip6_pod frame p.l2_offset))
unfolding ipv6
ipv6-loaded frame p net = ground arith

slice-IsAddress :
    (frame : List ℕ) (n o i : ℕ)
    → IsBytes frame
    → IsAddress (field_bytes (take n (drop o frame)) i 16)
slice-IsAddress frame n o i b = (
  All-take IsByte 16 _ (All-drop IsByte i _ (All-take IsByte n _ (All-drop IsByte o frame b))),
  omega (arith, length-take 16 (drop i (take n (drop o frame)))),
)

-- The addresses that `Get5Tuple` reads from a frame of bytes that the parser has accepted are bytes, 16 at most.
pub get_5tuple-Addressed :
    (frame : List ℕ) (p : Parser)
    → IsBytes frame
    → Complete frame (p, done)
    → Addressed (get_5tuple p)
unfolding get_5tuple
get_5tuple-Addressed frame p b complete = elim (Option-cases (ipv4 p)) [
  | inr (ip, e) ↦
      rw (get_5tuple, e)
        (with_ports-Addressed p _ ((omega arith, omega arith), (omega arith, omega arith)))
  | inl none4 ↦ elim (ipv6-loaded frame p (complete refl).1) [
    | inl none6 ↦
        rw (get_5tuple, none4, none6) ((omega arith, omega arith), (omega arith, omega arith))
    | inr held ↦
        rw (get_5tuple, none4, held)
          (with_ports-Addressed p _
            (slice-IsAddress frame 40 p.l2_offset 8 b, slice-IsAddress frame 40 p.l2_offset 24 b))
  ]
]
