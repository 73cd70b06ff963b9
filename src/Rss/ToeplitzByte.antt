-- ===== src/Rss/ToeplitzByte.antt =====
-- The rounds of `key320_hash_calc` for the bits of one input byte, and its next byte of the key.
use vnic.Prelude.{
  ℕ, zero, suc, ◌+◌, ◌-◌, ◌*◌, ◌/◌, ◌%◌, ◌^◌, ◌<◌, ◌≡◌, refl, ◌∙◌, ap, ap₂, arith, Bool, true, ◌&&◌,
  List, All, ◌==◌, ==_iff, if◌then◌else◌, bit_and, bit_or, bit_xor,
}
use vnic.Bits.Laws.{bit_or-fields}
use vnic.Net.Bytes.{IsByte, u8_lt}
use vnic.Rss.Window.{key_byte, five_bytes, window, hash_bit, hash_bits}
use vnic.Rss.Functions.{toeplitz_bits}

pub key_byte_lt : (key : List ℕ) (i : ℕ) → All IsByte key → key_byte key i < 256
unfolding key_byte
key_byte_lt key i h = ground (arith, u8_lt key i h)

-- The eight bytes that `prefix` holds at the start of input byte `i`.
unfoldable pub eight_bytes : List ℕ → ℕ → ℕ
eight_bytes key i =
    five_bytes key i * 2 ^ 24
    + ((key_byte key (i + 5) * 256 + key_byte key (i + 6)) * 256 + key_byte key (i + 7))

-- A test of the numbers below a bound.
check_up_to : (ℕ → Bool) → ℕ → Bool
check_up_to test zero = true
check_up_to test (suc k) = check_up_to test k && test k

check_up_to_lem : (test : ℕ → Bool) (k y : ℕ) → y < k → check_up_to test k ≡ true → test y ≡ true
unfolding check_up_to
check_up_to_lem test zero y below passed = absurd (omega arith)
check_up_to_lem test (suc k) y below passed = ground (arith, check_up_to_lem test k y)

-- `byte & 0x80` reads the highest bit.
high_bit : (y : ℕ) → y < 256 → bit_and y 0x80 ≡ y / 128 * 128
unfolding check_up_to
high_bit y h = (==_iff _ _).0 (check_up_to_lem same_bit 256 y h table)
  where
    same_bit : ℕ → Bool
    same_bit k = bit_and k 0x80 == k / 128 * 128

    table : check_up_to same_bit 256 ≡ true
    table = refl

-- One round of the inner loop, by the values that it computes.
toeplitz_bits_step :
    (rounds byte byte' prefix prefix' hash t w : ℕ)
    → byte < 256
    → byte * 2 % 256 ≡ byte'
    → prefix * 2 % 2 ^ 64 ≡ prefix'
    → byte / 128 ≡ t
    → prefix / 2 ^ 32 % 2 ^ 32 ≡ w
    → toeplitz_bits (suc rounds) byte prefix hash
      ≡ toeplitz_bits rounds byte' prefix' (if t == 0 then hash else bit_xor hash w)
unfolding toeplitz_bits
toeplitz_bits_step rounds byte byte' prefix prefix' hash t w h b p e v =
    rw (b, p, v)
      (ap (λ c. toeplitz_bits rounds byte' prefix' (if c then hash else bit_xor hash w)) test)
  where
    test : (bit_and byte 0x80 == 0) ≡ (t == 0)
    test = ground (arith, high_bit byte h)

-- What holds before round `b` of the inner loop, for five bytes `f` and three bytes `l` of the key.
abbrev Round : ℕ → ℕ → ℕ → ℕ → Type 0
Round f l byte b =
    let prefix = (f * 2 ^ 24 + l) * 2 ^ b % 2 ^ 64 in
    (byte * 2 ^ b % 256 < 256)
    × (byte * 2 ^ b % 256 * 2 % 256 ≡ byte * 2 ^ (b + 1) % 256)
    × (prefix * 2 % 2 ^ 64 ≡ (f * 2 ^ 24 + l) * 2 ^ (b + 1) % 2 ^ 64)
    × (byte * 2 ^ b % 256 / 128 ≡ byte / 2 ^ (7 - b) % 2)
    × (prefix / 2 ^ 32 % 2 ^ 32 ≡ f / 2 ^ (8 - b) % 2 ^ 32)

toeplitz_bits_end : (byte prefix hash : ℕ) → toeplitz_bits 0 byte prefix hash ≡ (prefix, hash)
unfolding toeplitz_bits
toeplitz_bits_end byte prefix hash = refl

module _ (key : List ℕ) (bytes : All IsByte key) (i : ℕ) where
  -- The low three of the eight bytes.
  low_bytes : ℕ
  low_bytes = (key_byte key (i + 5) * 256 + key_byte key (i + 6)) * 256 + key_byte key (i + 7)

  low_bytes_lt : low_bytes < 2 ^ 24
  unfolding low_bytes
  low_bytes_lt = omega (
    arith,
    key_byte_lt key (i + 5) bytes,
    key_byte_lt key (i + 6) bytes,
    key_byte_lt key (i + 7) bytes,
  )

  round :
      (rounds b byte hash : ℕ)
      → Round (five_bytes key i) low_bytes byte b
      → let start = five_bytes key i * 2 ^ 24 + low_bytes in
        toeplitz_bits (suc rounds) (byte * 2 ^ b % 256) (start * 2 ^ b % 2 ^ 64) hash
        ≡ toeplitz_bits rounds
            (byte * 2 ^ (b + 1) % 256)
            (start * 2 ^ (b + 1) % 2 ^ 64)
            (hash_bit key i byte b hash)
  unfolding hash_bit window
  round rounds b byte hash r =
      toeplitz_bits_step rounds _ _ _ _ hash (byte / 2 ^ (7 - b) % 2) _ r.0 r.1 r.2 r.3 r.4

  all_rounds :
      (byte hash : ℕ)
      → let start = five_bytes key i * 2 ^ 24 + low_bytes in
        toeplitz_bits 8 (byte * 2 ^ 0 % 256) (start * 2 ^ 0 % 2 ^ 64) hash
        ≡ (start * 2 ^ 8 % 2 ^ 64, hash_bits key i byte 8 0 hash)
  unfolding hash_bits
  all_rounds byte hash =
      let low = low_bytes_lt in
      round 7 0 byte _ (omega arith)
      ∙ round 6 1 byte _ (omega arith)
      ∙ round 5 2 byte _ (omega arith)
      ∙ round 4 3 byte _ (omega arith)
      ∙ round 3 4 byte _ (omega arith)
      ∙ round 2 5 byte _ (omega arith)
      ∙ round 1 6 byte _ (omega arith)
      ∙ round 0 7 byte _ (omega arith)
      ∙ toeplitz_bits_end _ _ _

  eight_bytes_lt : eight_bytes key i < 2 ^ 64
  unfolding eight_bytes five_bytes
  eight_bytes_lt = omega (
    arith,
    key_byte_lt key i bytes,
    key_byte_lt key (i + 1) bytes,
    key_byte_lt key (i + 2) bytes,
    key_byte_lt key (i + 3) bytes,
    key_byte_lt key (i + 4) bytes,
    key_byte_lt key (i + 5) bytes,
    key_byte_lt key (i + 6) bytes,
    key_byte_lt key (i + 7) bytes,
  )

  -- The inner loop, started at bit 0.
  pub toeplitz_bits_lem :
      (byte hash : ℕ)
      → byte < 256
      → toeplitz_bits 8 byte (eight_bytes key i) hash
        ≡ (eight_bytes key i * 256 % 2 ^ 64, hash_bits key i byte 8 0 hash)
  toeplitz_bits_lem byte hash h =
      ap₂ (λ b p. toeplitz_bits 8 b p hash) start_byte start_prefix ∙ unfolded
    where
      start_byte : byte ≡ byte * 2 ^ 0 % 256
      start_byte = omega arith

      start_prefix : eight_bytes key i ≡ eight_bytes key i * 2 ^ 0 % 2 ^ 64
      start_prefix = omega (arith, eight_bytes_lt)

      unfolded :
          toeplitz_bits 8 (byte * 2 ^ 0 % 256) (eight_bytes key i * 2 ^ 0 % 2 ^ 64) hash
          ≡ (eight_bytes key i * 256 % 2 ^ 64, hash_bits key i byte 8 0 hash)
      unfolded = unfold eight_bytes low_bytes in all_rounds byte hash

  -- The next key byte moves in.
  pub next_prefix :
      bit_or (eight_bytes key i * 256 % 2 ^ 64) (key_byte key (i + 8)) ≡ eight_bytes key (i + 1)
  unfolding eight_bytes five_bytes
  next_prefix =
      let shifted : eight_bytes key i * 256 % 2 ^ 64 ≡ seven_bytes * 2 ^ 8 = omega (
        arith,
        key_byte_lt key (i + 1) bytes,
        key_byte_lt key (i + 2) bytes,
        key_byte_lt key (i + 3) bytes,
        key_byte_lt key (i + 4) bytes,
        key_byte_lt key (i + 5) bytes,
        key_byte_lt key (i + 6) bytes,
        key_byte_lt key (i + 7) bytes,
      ) in
      rw
        (
          shifted,
          bit_or-fields 8 seven_bytes (key_byte key (i + 8)) (key_byte_lt key (i + 8) bytes),
        )
        (omega (arith, moved 1, moved 2, moved 3, moved 4, moved 5, moved 6, moved 7))
    where
      moved : (j : ℕ) → key_byte key (i + 1 + j) ≡ key_byte key (i + suc j)
      moved j = ap (key_byte key) (omega arith)

      seven_bytes : ℕ
      seven_bytes =
          (((((key_byte key (i + 1) * 256 + key_byte key (i + 2)) * 256 + key_byte key (i + 3))
                        * 256
                      + key_byte key (i + 4))
                    * 256
                  + key_byte key (i + 5))
                * 256
              + key_byte key (i + 6))
            * 256
          + key_byte key (i + 7)
