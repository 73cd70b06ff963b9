-- ===== src/Rss/Window.antt =====
-- The Toeplitz hash by its definition: a 32-bit window slides over the bits of the key, and the
-- windows at the positions of the ones of the input are added without carry.
use vnic.Prelude.{
  ℕ, zero, suc, ◌+◌, ◌-◌, ◌*◌, ◌/◌, ◌%◌, ◌^◌, List, [], ◌∷◌, get_or, ltb, ◌==◌, if◌then◌else◌,
  bit_xor,
}
use vnic.Rss.Functions.{toeplitz_key_bytes}

-- The key as a sequence of bytes that ends after 40.
unfoldable pub key_byte : List ℕ → ℕ → ℕ
key_byte key i = if ltb i toeplitz_key_bytes then get_or key i 0 else 0

-- Five bytes from byte `i` on.
unfoldable pub five_bytes : List ℕ → ℕ → ℕ
five_bytes key i =
    (((key_byte key i * 256 + key_byte key (i + 1)) * 256 + key_byte key (i + 2)) * 256
        + key_byte key (i + 3))
      * 256
    + key_byte key (i + 4)

-- The 32 bits of the key from bit `8 * i + b` on, where `b ≤ 8`.
unfoldable pub window : List ℕ → ℕ → ℕ → ℕ
window key i b = five_bytes key i / 2 ^ (8 - b) % 2 ^ 32

-- Bit `b` of input byte `i`, the highest being bit 0.
unfoldable pub hash_bit : List ℕ → ℕ → ℕ → ℕ → ℕ → ℕ
hash_bit key i byte b hash =
    if byte / 2 ^ (7 - b) % 2 == 0 then hash else bit_xor hash (window key i b)

-- The bits of input byte `i` from bit `b` on, of which `rounds` are left.
unfoldable pub hash_bits : List ℕ → ℕ → ℕ → ℕ → ℕ → ℕ → ℕ
hash_bits key i byte zero b hash = hash
hash_bits key i byte (suc rounds) b hash =
    hash_bits key i byte rounds (b + 1) (hash_bit key i byte b hash)

-- The input from its byte `i` on.
unfoldable pub toeplitz_from : List ℕ → List ℕ → ℕ → ℕ → ℕ
toeplitz_from key [] i hash = hash
toeplitz_from key (byte ∷ input) i hash =
    toeplitz_from key input (i + 1) (hash_bits key i byte 8 0 hash)

unfoldable pub toeplitz : List ℕ → List ℕ → ℕ
toeplitz key input = toeplitz_from key input 0 0
