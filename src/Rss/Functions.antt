-- ===== src/Rss/Functions.antt =====
-- The three hash functions of src/rss/hash.cpp. Reads of the key go through `get_elem?`, so `none`
-- is a read past its end.
use vnic.Prelude.{
  ℕ, zero, suc, ◌+◌, ◌-◌, ◌*◌, ◌/◌, ◌%◌, ◌^◌, List, [], ◌∷◌, Option, some, ◌>>=◌, length, get_elem?,
  ltb, leb, ◌==◌, if◌then◌else◌, bit_and, bit_or, bit_xor,
}

abbrev pub toeplitz_key_bytes : ℕ
toeplitz_key_bytes = 40

-- The loop that shifts the first bytes of the key into `prefix`; `rounds` are left, `i` is next.
unfoldable pub load_prefix : ℕ → ℕ → ℕ → List ℕ → Option ℕ
load_prefix zero i prefix key = some prefix
load_prefix (suc rounds) i prefix key = do
  k ← get_elem? key i
  load_prefix rounds (i + 1) (bit_or (prefix * 2 ^ 8 % 2 ^ 64) k) key

-- The inner loop over the bits of one byte: the prefix and the hash after it.
unfoldable pub toeplitz_bits : ℕ → ℕ → ℕ → ℕ → ℕ × ℕ
toeplitz_bits zero byte prefix hash = (prefix, hash)
toeplitz_bits (suc rounds) byte prefix hash =
    toeplitz_bits rounds (byte * 2 % 256) (prefix * 2 % 2 ^ 64)
      (if bit_and byte 0x80 == 0 then hash else bit_xor hash (prefix / 2 ^ 32 % 2 ^ 32))

-- `(keyIndex < kToeplitzKeyBytes) ? key[keyIndex] : 0`
unfoldable pub next_key_byte : List ℕ → ℕ → Option ℕ
next_key_byte key i = if ltb i toeplitz_key_bytes then get_elem? key i else some 0

-- The outer loop, over the input that is left.
unfoldable pub toeplitz_loop : List ℕ → List ℕ → ℕ → ℕ → ℕ → Option ℕ
toeplitz_loop key [] prefix hash key_index = some hash
toeplitz_loop key (byte ∷ input) prefix hash key_index =
    let (prefix', hash') = toeplitz_bits 8 byte prefix hash in
    do
      k ← next_key_byte key key_index
      toeplitz_loop key input (bit_or prefix' k) hash' (key_index + 1)

-- `key320_hash_calc`
unfoldable pub key320_hash_calc : List ℕ → List ℕ → Option ℕ
key320_hash_calc key input = do prefix ← load_prefix 8 0 0 key; toeplitz_loop key input prefix 0 8

-- The loop of `simple_xor_calc`; `i` is the index of the next byte.
unfoldable pub xor_loop : List ℕ → ℕ → ℕ → ℕ
xor_loop [] i hash = hash
xor_loop (byte ∷ input) i hash =
    xor_loop input (i + 1) (bit_xor hash (byte * 2 ^ (i % 4 * 8) % 2 ^ 32))

-- The first four bytes of the key as a number, which two of the functions mix in.
unfoldable pub key_word : List ℕ → Option ℕ
key_word key = do
  k0 ← get_elem? key 0
  k1 ← get_elem? key 1
  k2 ← get_elem? key 2
  k3 ← get_elem? key 3
  some (bit_or (bit_or (bit_or k0 (k1 * 2 ^ 8)) (k2 * 2 ^ 16)) (k3 * 2 ^ 24))

-- `if (key.size() >= 4) hash ^= …`, of `simple_xor_calc` and of the CRC's seed.
unfoldable pub mix_key : List ℕ → ℕ → Option ℕ
mix_key key hash =
    if leb 4 (length key) then (key_word key >>= λ word. some (bit_xor hash word)) else some hash

-- `simple_xor_calc`
unfoldable pub simple_xor_calc : List ℕ → List ℕ → Option ℕ
simple_xor_calc input key = mix_key key (xor_loop input 0 0)

-- The inner loop of `crc32_calc`. `0u - (crc & 1u)` is all ones or zero.
unfoldable pub crc_bits : ℕ → ℕ → ℕ
crc_bits zero crc = crc
crc_bits (suc rounds) crc =
    let mask = (2 ^ 32 - bit_and crc 1) % 2 ^ 32 in
    crc_bits rounds (bit_xor (crc / 2) (bit_and 0xedb88320 mask))

-- The outer loop of `crc32_calc`.
unfoldable pub crc_loop : List ℕ → ℕ → ℕ
crc_loop [] crc = crc
crc_loop (byte ∷ input) crc = crc_loop input (crc_bits 8 (bit_xor crc byte))

-- `crc32_calc`; `~crc` on 32 bits.
unfoldable pub crc32_calc : List ℕ → ℕ → ℕ
crc32_calc input seed = 2 ^ 32 - 1 - crc_loop input seed
