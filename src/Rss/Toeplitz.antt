-- ===== src/Rss/Toeplitz.antt =====
-- `key320_hash_calc` against the definition of the Toeplitz hash.
use vnic.Prelude.{
  ℕ, suc, ◌+◌, ◌*◌, ◌%◌, ◌^◌, ◌≤◌, ◌<◌, ◌≡◌, refl, ◌∙◌, ap, arith, List, [], ◌∷◌, some, length,
  get_elem?, get_elem?-some, All, bit_or,
}
use vnic.Bits.Laws.{bit_or-fields}
use vnic.Net.Bytes.{IsByte}
use vnic.Rss.Window.{key_byte, five_bytes, hash_bits, toeplitz_from, toeplitz}
use vnic.Rss.Functions.{load_prefix, next_key_byte, toeplitz_loop, key320_hash_calc}
use vnic.Rss.ToeplitzByte.{key_byte_lt, eight_bytes, toeplitz_bits_lem, next_prefix}

module _ (key : List ℕ) (bytes : All IsByte key) (long : 40 ≤ length key) where
  next_key_byte_lem : (j : ℕ) → next_key_byte key j ≡ some (key_byte key j)
  unfolding next_key_byte key_byte
  next_key_byte_lem j = ground (arith, get_elem?-some key j 0)

  toeplitz_loop_lem :
      (input : List ℕ) (i hash : ℕ)
      → All IsByte input
      → toeplitz_loop key input (eight_bytes key i) hash (i + 8)
        ≡ some (toeplitz_from key input i hash)
  unfolding toeplitz_loop toeplitz_from
  toeplitz_loop_lem [] i hash b = refl
  toeplitz_loop_lem (byte ∷ input) i hash b =
      rw
        (
          toeplitz_bits_lem key bytes i byte hash b.0,
          next_key_byte_lem (i + 8),
          next_prefix key bytes i,
        )
        (rw (index i) (toeplitz_loop_lem input (i + 1) (hash_bits key i byte 8 0 hash) b.1))
    where
      index : (n : ℕ) → n + 8 + 1 ≡ n + 1 + 8
      index n = omega arith

  -- One round of the loop that fills the prefix.
  push_byte : (p k : ℕ) → p < 2 ^ 56 → k < 256 → bit_or (p * 2 ^ 8 % 2 ^ 64) k ≡ p * 256 + k
  push_byte p k h l =
      let whole : p * 2 ^ 8 % 2 ^ 64 ≡ p * 2 ^ 8 = omega arith in rw whole (bit_or-fields 8 p k l)

  fill :
      (rounds i p : ℕ)
      → i < 40
      → p < 2 ^ 56
      → load_prefix (suc rounds) i p key ≡ load_prefix rounds (i + 1) (p * 256 + key_byte key i) key
  unfolding load_prefix
  fill rounds i p h l = rw (read, push_byte p (key_byte key i) l (key_byte_lt key i bytes)) refl
    where
      read : get_elem? key i ≡ some (key_byte key i)
      read = unfold key_byte in ground (arith, get_elem?-some key i 0)

  load_prefix_lem : load_prefix 8 0 0 key ≡ some (eight_bytes key 0)
  unfolding eight_bytes five_bytes
  load_prefix_lem =
      let b0 = key_byte_lt key 0 bytes in
      let b1 = key_byte_lt key 1 bytes in
      let b2 = key_byte_lt key 2 bytes in
      let b3 = key_byte_lt key 3 bytes in
      let b4 = key_byte_lt key 4 bytes in
      let b5 = key_byte_lt key 5 bytes in
      let b6 = key_byte_lt key 6 bytes in
      fill 7 0 _ (omega arith) (omega arith)
      ∙ fill 6 1 _ (omega arith) (omega arith)
      ∙ fill 5 2 _ (omega arith) (omega arith)
      ∙ fill 4 3 _ (omega arith) (omega arith)
      ∙ fill 3 4 _ (omega arith) (omega arith)
      ∙ fill 2 5 _ (omega arith) (omega arith)
      ∙ fill 1 6 _ (omega arith) (omega arith)
      ∙ fill 0 7 _ (omega arith) (omega arith)
      ∙ unfold load_prefix in ap some (omega arith)

-- With a key of at least 40 bytes the code computes the Toeplitz hash of its input: the sum without
-- carry of the 32-bit windows of the key at the positions of the ones, where the key counts as
-- followed by zeros behind its 40th byte. No read lies outside the key.
pub key320_hash_calc_lem :
    (key input : List ℕ)
    → All IsByte key
    → All IsByte input
    → 40 ≤ length key
    → key320_hash_calc key input ≡ some (toeplitz key input)
unfolding key320_hash_calc toeplitz
key320_hash_calc_lem key input b c long =
    rw (load_prefix_lem key b long) (toeplitz_loop_lem key b long input 0 0 c)
