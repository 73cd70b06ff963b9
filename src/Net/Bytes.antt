-- ===== src/Net/Bytes.antt =====
-- Byte order and the unaligned load of include/utils/unaligned.h.
-- A byte is a number; a host integer is the number that it holds on a little-endian machine, so a
-- `__be16` field that was copied from a frame holds its two bytes in the opposite order.
use vnic.Prelude.{
  zero, suc, [], ◌∷◌, All, ℕ, ◌+◌, ◌*◌, ◌/◌, ◌%◌, ◌≤◌, ◌<◌, ◌≡◌, Option, none, some, List, arith,
  leb, length, take, drop, get_or, ◌>>=◌, if◌then◌else◌,
}

abbrev pub IsByte : ℕ → Type 0
IsByte b = b < 256

abbrev pub IsBytes : List ℕ → Type 0
IsBytes bytes = All IsByte bytes

abbrev pub u8 : List ℕ → ℕ → ℕ
u8 bytes i = get_or bytes i 0

pub u8_lt : (xs : List ℕ) (i : ℕ) → IsBytes xs → get_or xs i 0 < 256
u8_lt [] i h = omega arith
u8_lt (x ∷ xs) zero h = h.0
u8_lt (x ∷ xs) (suc i) h = u8_lt xs i h.1

abbrev pub u16 : List ℕ → ℕ → ℕ
u16 bytes i = u8 bytes i + 256 * u8 bytes (i + 1)

abbrev pub u32 : List ℕ → ℕ → ℕ
u32 bytes i = u16 bytes i + 65536 * u16 bytes (i + 2)

-- `n` bytes from `i` on, of an array inside a header.
abbrev pub field_bytes : List ℕ → ℕ → ℕ → List ℕ
field_bytes bytes i n = take n (drop i bytes)

-- `ntohs` of a 16-bit value: the two bytes change places.
unfoldable pub ntohs : ℕ → ℕ
ntohs x = x % 256 * 256 + x / 256 % 256

unfoldable pub ntohl : ℕ → ℕ
ntohl x = x % 256 * 16777216 + x / 256 % 256 * 65536 + x / 65536 % 256 * 256 + x / 16777216 % 256

-- A trivially copyable type: its size, and the value that its bytes stand for.
pub record Pod {ℓ} (A : Type ℓ) : Type ℓ where
  pub sizeof : ℕ
  pub decode : List ℕ → A

-- The bytes that `memcpy` reads; `none` where it would read outside the span.
unfoldable pub read_bytes : List ℕ → ℕ → ℕ → Option (List ℕ)
read_bytes bytes offset n =
    if leb (offset + n) (length bytes) then some (take n (drop offset bytes)) else none

-- `LoadUnaligned<T>(data.data() + offset)`
unfoldable pub load_unaligned {ℓ} : {A : Type ℓ} → Pod A → List ℕ → ℕ → Option A
load_unaligned pod bytes offset = do raw ← read_bytes bytes offset pod.sizeof; some (pod.decode raw)

-- What a load inside the span returns.
abbrev pub loaded {ℓ} : {A : Type ℓ} → Pod A → List ℕ → ℕ → A
loaded pod bytes offset = pod.decode (take pod.sizeof (drop offset bytes))

pub read_bytes_inside :
    (bytes : List ℕ) (offset n : ℕ)
    → offset + n ≤ length bytes
    → read_bytes bytes offset n ≡ some (take n (drop offset bytes))
unfolding read_bytes
read_bytes_inside bytes offset n h = ground arith

pub load_unaligned_inside {ℓ} :
    {A : Type ℓ} (pod : Pod A) (bytes : List ℕ) (offset : ℕ)
    → offset + pod.sizeof ≤ length bytes
    → load_unaligned pod bytes offset ≡ some (loaded pod bytes offset)
unfolding load_unaligned
load_unaligned_inside pod bytes offset h = rw (read_bytes_inside bytes offset pod.sizeof h)

pub ntohs_lt : (x : ℕ) → ntohs x < 65536
unfolding ntohs
ntohs_lt x = omega arith

pub ntohs-ntohs : (x : ℕ) → x < 65536 → ntohs (ntohs x) ≡ x
unfolding ntohs
ntohs-ntohs x h = omega arith

pub ntohl_injective : (x y : ℕ) → x < 4294967296 → y < 4294967296 → ntohl x ≡ ntohl y → x ≡ y
unfolding ntohl
ntohl_injective x y h k e = omega arith

pub ntohs_injective : (x y : ℕ) → x < 65536 → y < 65536 → ntohs x ≡ ntohs y → x ≡ y
unfolding ntohs
ntohs_injective x y h k e = omega arith
