-- ===== src/Rss/Range.antt =====
-- `CalcHash` is defined on every flow and key, and a hash is a 32-bit number.
use vnic.Prelude.{
  ℕ, zero, suc, ◌+◌, ◌-◌, ◌/◌, ◌%◌, ◌^◌, ◌<◌, ◌≤◌, ◌≡◌, refl, some, length-append, arith, List, [],
  ◌∷◌, ◌++◌, length, All, Returns, ltb, ◌==◌, if◌then◌else◌, bit_and, Bool-cases, inl, inr, ltb→ge,
  le→leb, All-append, All-if,
}
use vnic.Bits.Laws.{bit_xor-range, bit_or-range, bit_and-le}
use vnic.Packet.FiveTuple.{FiveTuple}
use vnic.Rss.Input.{
  has_ip, has_l4, bytes16, bytes32, HashFunc, SymmetryMode, copied, max_hash_input_bytes,
  build_hash_input, make_symmetric,
}
use vnic.Rss.Functions.{
  xor_loop, key_word, mix_key, simple_xor_calc, crc_bits, crc_loop, crc32_calc,
}
use vnic.Rss.Window.{window, hash_bit, hash_bits, toeplitz_from, toeplitz}
use vnic.Net.Bytes.{IsByte}
use vnic.Rss.Toeplitz.{key320_hash_calc_lem}
use vnic.Rss.Hash.{apply_hash, order_tuple, calc_hash}

abbrev pub IsHash : ℕ → Type 0
IsHash h = h < 2 ^ 32

hash_bit_range :
    (key : List ℕ) (i byte b hash : ℕ) → IsHash hash → IsHash (hash_bit key i byte b hash)
unfolding hash_bit window
hash_bit_range key i byte b hash h = ground (arith, bit_xor-range 32 hash (window key i b))

hash_bits_range :
    (rounds b i byte hash : ℕ) (key : List ℕ)
    → IsHash hash
    → IsHash (hash_bits key i byte rounds b hash)
unfolding hash_bits
hash_bits_range zero b i byte hash key h = h
hash_bits_range (suc rounds) b i byte hash key h =
    hash_bits_range rounds (b + 1) i byte _ key (hash_bit_range key i byte b hash h)

toeplitz_from_range :
    (input : List ℕ) (i hash : ℕ) (key : List ℕ)
    → IsHash hash
    → IsHash (toeplitz_from key input i hash)
unfolding toeplitz_from
toeplitz_from_range [] i hash key h = h
toeplitz_from_range (x ∷ input) i hash key h =
    toeplitz_from_range input (i + 1) _ key (hash_bits_range 8 0 i x hash key h)

xor_loop_range : (input : List ℕ) (i hash : ℕ) → IsHash hash → IsHash (xor_loop input i hash)
unfolding xor_loop
xor_loop_range [] i hash h = h
xor_loop_range (x ∷ input) i hash h =
    xor_loop_range input (i + 1) _ (bit_xor-range 32 hash _ h (omega arith))

crc_bits_range : (rounds crc : ℕ) → IsHash crc → IsHash (crc_bits rounds crc)
unfolding crc_bits
crc_bits_range zero crc h = h
crc_bits_range (suc rounds) crc h =
    let mask = (2 ^ 32 - bit_and crc 1) % 2 ^ 32 in
    let small = bit_and-le mask 0xedb88320 mask (omega arith) in
    crc_bits_range rounds _
      (bit_xor-range 32 (crc / 2) (bit_and 0xedb88320 mask) (omega arith) (omega arith))

crc_loop_range :
    (input : List ℕ) (crc : ℕ) → All IsByte input → IsHash crc → IsHash (crc_loop input crc)
unfolding crc_loop
crc_loop_range [] crc b h = h
crc_loop_range (x ∷ input) crc b h =
    crc_loop_range input _ b.1 (crc_bits_range 8 _ (bit_xor-range 32 crc x h (omega arith)))

-- Mixing in the key reads its first four bytes, and only if it has four.
mix_key_range :
    (key : List ℕ) (hash : ℕ) → All IsByte key → IsHash hash → Returns IsHash (mix_key key hash)
unfolding mix_key key_word
mix_key_range [] hash b h = h
mix_key_range (k0 ∷ []) hash b h = h
mix_key_range (k0 ∷ k1 ∷ []) hash b h = h
mix_key_range (k0 ∷ k1 ∷ k2 ∷ []) hash b h = h
mix_key_range (k0 ∷ k1 ∷ k2 ∷ k3 ∷ key) hash b h =
    rw (le→leb 4 (length (k0 ∷ k1 ∷ k2 ∷ k3 ∷ key)) (omega arith)) (
      bit_xor-range 32 hash _ h (
        bit_or-range 32 _ _
          (bit_or-range 32 _ _ (bit_or-range 32 _ _ (omega arith) (omega arith)) (omega arith))
          (omega arith)))

toeplitz_range : (key input : List ℕ) → IsHash (toeplitz key input)
unfolding toeplitz
toeplitz_range key input = toeplitz_from_range input 0 0 key (omega arith)

apply_hash_range :
    (hf : HashFunc) (input key : List ℕ)
    → All IsByte input
    → All IsByte key
    → Returns IsHash (apply_hash hf input key)
unfolding apply_hash simple_xor_calc crc32_calc
apply_hash_range HashFunc.toeplitz input key b c = elim (Bool-cases (ltb (length key) 40)) [
  | inl short ↦ rw short (omega arith)
  | inr long ↦
      rw (long, key320_hash_calc_lem key input c b (ltb→ge _ _ long)) (toeplitz_range key input)
]
apply_hash_range HashFunc.simple_xor input key b c =
    mix_key_range key _ c (xor_loop_range input 0 0 (omega arith))
apply_hash_range HashFunc.crc32 input key b c = ground (arith, mix_key_range key 0xffffffff c)
apply_hash_range HashFunc.none input key b c = omega arith

-- The IPv6 addresses of a tuple are bytes, 16 at most; the other fields are turned into bytes by the code.
pub record HasByteAddresses (t : FiveTuple) : Type 0 where
  pub saddr6_bytes : All IsByte t.saddr6
  pub daddr6_bytes : All IsByte t.daddr6
  pub saddr6_size : length t.saddr6 ≤ 16
  pub daddr6_size : length t.daddr6 ≤ 16

order_tuple-HasByteAddresses :
    (mode : SymmetryMode) (t : FiveTuple)
    → HasByteAddresses t
    → HasByteAddresses (order_tuple mode t)
unfolding make_symmetric
order_tuple-HasByteAddresses SymmetryMode.symmetric t h = ground arith
order_tuple-HasByteAddresses SymmetryMode.asymmetric t h = h
order_tuple-HasByteAddresses SymmetryMode.none t h = h

copied_bytes : (t : FiveTuple) (protocol : ℕ) → HasByteAddresses t → All IsByte (copied t protocol)
unfolding copied
copied_bytes t protocol h =
    All-if IsByte (has_ip protocol) _ [] (All-append IsByte _ _ addresses ports) tt
  where
    addresses :
        All IsByte
          (if t.version == 6 then t.saddr6 ++ t.daddr6 else bytes32 t.saddr4 ++ bytes32 t.daddr4)
    addresses =
        All-if IsByte (t.version == 6) _ _
          (All-append IsByte t.saddr6 t.daddr6 h.saddr6_bytes h.daddr6_bytes) (omega arith)

    ports : All IsByte (if has_l4 protocol then bytes16 t.sport ++ bytes16 t.dport else [])
    ports = All-if IsByte (has_l4 protocol) _ [] (omega arith) tt

length-copied :
    (t : FiveTuple) (protocol : ℕ)
    → HasByteAddresses t
    → length (copied t protocol) ≤ max_hash_input_bytes
unfolding copied
length-copied t protocol h = ground (
  arith,
  h.saddr6_size,
  h.daddr6_size,
  length-append t.saddr6 t.daddr6,
  length-append (t.saddr6 ++ t.daddr6) (bytes16 t.sport ++ bytes16 t.dport),
  length-append (t.saddr6 ++ t.daddr6) [],
)

build_hash_input_lem :
    (t : FiveTuple) (protocol : ℕ)
    → HasByteAddresses t
    → build_hash_input t protocol ≡ some (copied t protocol)
unfolding build_hash_input
build_hash_input_lem t protocol h =
    rw (build_hash_input, le→leb _ _ (length-copied t protocol h)) refl

-- Whatever the flow, the key, the hash function, the selected fields and the symmetry mode,
-- computing a hash writes nothing outside the array of 36 bytes and reads nothing outside the key, and the hash is a 32-bit number.
pub calc_hash_range :
    (t : FiveTuple) (key : List ℕ) (hf : HashFunc) (protocol : ℕ) (mode : SymmetryMode)
    → HasByteAddresses t
    → All IsByte key
    → Returns IsHash (calc_hash t key hf protocol mode)
unfolding calc_hash
calc_hash_range t key hf protocol mode h k =
    let input = copied (order_tuple mode t) protocol in
    let bytes = order_tuple-HasByteAddresses mode t h in
    rw (build_hash_input_lem (order_tuple mode t) protocol bytes)
      (elim (Bool-cases (length input == 0)) [
        | inl empty ↦ rw empty (omega arith)
        | inr full ↦ rw full (apply_hash_range hf input key (copied_bytes _ protocol bytes) k)
      ])
