-- ===== src/Memory/Heap.antt =====
-- The heap of packet buffers: what `malloc` and `free` give and take, and what pointers reach.
use vnic.Prelude.{
  ℕ, ◌+◌, ◌≡◌, Bool, false, List, [], Option, none, some, length, leb, ◌==◌, if◌then◌else◌,
}

-- `struct PacketBuffer`, with the payload that follows it in memory; `none` is `nullptr`, and `size` is
-- that of the block that the two stand in.
pub record PacketBuffer : Type 0 where
  pub next : Option ℕ
  pub length : ℕ
  pub payload : List ℕ
  pub size : ℕ

-- `sizeof(PacketBuffer)`: a pointer of 8 bytes, a length of 4 and the padding.
abbrev pub header_size : ℕ
header_size = 16

-- The buffers that are allocated, by their address.
abbrev pub Heap : Type 0
Heap = ℕ → Option PacketBuffer

-- What a new block holds until it is written; the code writes all of it before it reads any.
abbrev pub raw_buffer : ℕ → PacketBuffer
raw_buffer size = record { next = none; length = 0; payload = []; size = size }

abbrev pub update : ℕ → Option PacketBuffer → Heap → Heap
update p b h q = if q == p then b else h q

-- Whether there is a block with room for some bytes behind the header.
abbrev pub fits : ℕ → Option PacketBuffer → Bool
fits bytes none = false
fits bytes (some b) = leb (header_size + bytes) b.size

abbrev pub size_of : Option PacketBuffer → ℕ
size_of none = 0
size_of (some b) = b.size

-- The writes of a header and of the bytes behind it through a pointer; undefined if no block is
-- allocated there, or if they go past its end.
unfoldable pub store : ℕ → Option ℕ → ℕ → List ℕ → Heap → Option Heap
store p next n bytes h =
    let written : PacketBuffer = record {
      next = next;
      length = n;
      payload = bytes;
      size = size_of (h p);
    } in
    if fits (length bytes) (h p) then some (update p (some written) h) else none

-- `malloc` of a block of a size: its address, or `none` for `nullptr`. What the code relies on is that a new
-- block is not part of one that is still allocated.
pub record Malloc : Type 0 where
  pub malloc : ℕ → Heap → Option ℕ
  pub fresh : (size : ℕ) (h : Heap) (p : ℕ) → malloc size h ≡ some p → h p ≡ none
