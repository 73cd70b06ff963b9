-- ===== src/RxQueue/Queue.antt =====
-- `class RxQueue`. A call takes the queue and the heap and returns both; `none` is undefined
-- behaviour of the heap, or a loop that ran out of fuel.
use vnic.Prelude.{
  ℕ, zero, suc, ◌+◌, ◌-◌, ◌/◌, ◌%◌, ◌^◌, min, Bool, not, List, [], ◌∷◌, Option, none, some, ◌>>=◌,
  length, ltb, ◌==◌, if◌then◌else◌,
}
use mathlib.Core.List.{head?}
use vnic.ErrorCode.{ErrorCode, eqb, Status, ok, unexpected, done}
use vnic.Net.Bytes.{read_bytes}
use vnic.Stats.{Stats, fetch_processed_packets, fetch_processed_bytes, fetch_overflows}
use vnic.Packet.Descriptor.{PacketDescriptor, empty_descriptor}
use vnic.Memory.Heap.{Heap, Malloc, header_size, store}
use vnic.Memory.Pool.{Pool, allocate}
use vnic.Memory.Pool.{Config as PoolConfig}
use vnic.Memory.Pool
use vnic.Memory.Chain.{deallocate_all, release_chain}
use vnic.Fifo.Queue.{Fifo, push, push_all, pop, try_pop_some}
use vnic.Fifo.Queue.{Config as FifoConfig}
use vnic.Fifo.Queue

-- `kMaxSegments` and `kPacketBufferSize` of include/constants.h.
abbrev pub max_segments : ℕ
max_segments = 512

abbrev pub packet_buffer_size : ℕ
packet_buffer_size = 2048

-- The block size of `MemPool`.
abbrev pub block_size : ℕ
block_size = packet_buffer_size + header_size

-- `struct Config`
pub record Config : Type 0 where
  pub queue_id : ℕ
  pub size : ℕ
  pub socket_id : ℕ

-- The members.
pub record RxQueue : Type 0 where
  pub free : Fifo PacketDescriptor
  pub used : Fifo PacketDescriptor
  pub pool : Pool
  pub stats : Stats
  pub config : Config

-- A call's result.
abbrev pub Outcome : Type 0
Outcome = Option (RxQueue × Heap × Status)

-- The loop that allocates the segments: the blocks that were got, in order, and the error of the
-- first failure.
unfoldable pub allocate_segments : Malloc → ℕ → Pool → Heap → Pool × Heap × List ℕ × Status
allocate_segments m zero pool h = (pool, h, [], done)
allocate_segments m (suc segments) pool h =
    let (pool1, h1, block) = allocate block_size m pool h in
    let (pool2, h2, blocks, s) = allocate_segments m segments pool1 h1 in
    elim block [ ok p ↦ (pool2, h2, p ∷ blocks, s) | unexpected e ↦ (pool1, h1, [], unexpected e) ]

-- The loop that fills the segments and links them, from `offset` of the packet on.
unfoldable pub fill_segments : List ℕ → List ℕ → ℕ → Heap → Option Heap
fill_segments [] packet offset h = some h
fill_segments (p ∷ ps) packet offset h =
    let chunk = min packet_buffer_size (length packet - offset) in
    do
      bytes ← read_bytes packet offset chunk
      h1 ← store p (head? ps) (chunk % 2 ^ 32) bytes h
      fill_segments ps packet (offset + chunk) h1

-- An error return of `put` that runs `buffersGuard`.
unfoldable pub give_back : List ℕ → ErrorCode → RxQueue → Heap → Outcome
give_back buffers e q h = do
  r ← deallocate_all buffers q.pool h
  some (record q { pool = r.0 }, r.1, unexpected e)

-- `put` from `free_.pop` on; the descriptor is filled.
unfoldable pub put_descriptor : PacketDescriptor → ℕ → List ℕ → RxQueue → Heap → Outcome
put_descriptor desc bytes buffers q h =
    let (free1, slot) = pop q.free in
    let (used1, pushed) = push desc q.used in
    elim slot [
      | none ↦
          give_back buffers ErrorCode.queue_free_list_empty
            (record q { free = free1; stats = fetch_overflows 1 q.stats }) h
      | some d ↦ elim pushed [
        | ok u ↦
            let stats1 = fetch_processed_bytes bytes (fetch_processed_packets 1 q.stats) in
            some (record q { free = free1; used = used1; stats = stats1 }, h, done)
        | unexpected e ↦
            let error = if eqb e ErrorCode.queue_full then ErrorCode.queue_used_list_full else e in
            give_back buffers error (record q { free = (push d free1).0; used = used1 }) h
      ]
    ]

-- `put` from the allocation on; `none` is also a write past the end of `buffers`, which has room for
-- 512 pointers.
unfoldable pub put_segments : Malloc → PacketDescriptor → List ℕ → ℕ → RxQueue → Heap → Outcome
put_segments m desc packet segments q h =
    let (pool1, h1, buffers, s) = allocate_segments m segments q.pool h in
    let q1 = record q { pool = pool1 } in
    if ltb max_segments (length buffers) then none else elim s [
      | unexpected e ↦ give_back buffers e q1 h1
      | ok u ↦ do
        h2 ← fill_segments buffers packet 0 h1
        put_descriptor
            (record desc { buffer = head? buffers; total_length = length packet % 2 ^ 32 })
            (length packet) buffers q1 h2
    ]

-- `RxQueue::put`
unfoldable pub put : Malloc → PacketDescriptor → List ℕ → RxQueue → Heap → Outcome
put m desc packet q h =
    let bytes = length packet in
    let segments = (bytes + packet_buffer_size - 1) / packet_buffer_size in
    if bytes == 0
    then some (q, h, unexpected ErrorCode.queue_zero_length_packet)
    else if ltb (2 ^ 32 - 1) bytes
    then some (q, h, unexpected ErrorCode.queue_packet_too_large)
    else if ltb max_segments segments
    then some (
      record q { stats = fetch_overflows 1 q.stats },
      h,
      unexpected ErrorCode.queue_segment_limit_exceeded,
    )
    else put_segments m desc packet segments q h

-- `RxQueue::take`: the descriptors that are appended to the caller's vector.
unfoldable pub take : RxQueue → RxQueue × List PacketDescriptor
take q = let (used1, taken) = try_pop_some max_segments q.used in (record q { used = used1 }, taken)

-- The loop of `free` over the descriptors; `fuel` bounds the length of each chain.
unfoldable pub release_all : ℕ → List PacketDescriptor → Pool → Heap → Option (Pool × Heap)
release_all fuel [] pool h = some (pool, h)
release_all fuel (desc ∷ descs) pool h = do
  r ← release_chain fuel desc.buffer pool h
  release_all fuel descs r.0 r.1

-- `RxQueue::free`
unfoldable pub free : ℕ → List PacketDescriptor → RxQueue → Heap → Outcome
free fuel descs q h = do
  r ← release_all fuel descs q.pool h
  let (free1, pushed) = push_all descs q.free
  let q1 = record q { free = free1; pool = r.0 }
  elim pushed [
    | ok u ↦ some (q1, r.1, done)
    | unexpected e ↦
        let error = if eqb e ErrorCode.queue_full then ErrorCode.queue_free_list_full else e in
        some (q1, r.1, unexpected error)
  ]

-- `Config::isValid`
unfoldable pub is_valid : Config → Bool
is_valid config = ltb 0 config.size

-- `configureImpl`
unfoldable pub configure_impl : Config → RxQueue → RxQueue × Status
configure_impl config q =
    let pool_config : PoolConfig = record {
      block_size = packet_buffer_size;
      capacity = config.size;
      socket_id = config.socket_id;
    } in
    let fifo_config : FifoConfig = record {
      capacity = config.size;
      socket_id = config.socket_id;
    } in
    let (pool1, s1) = Pool.configure pool_config q.pool in
    let (free1, s2) = Queue.configure fifo_config q.free in
    let (used1, s3) = Queue.configure fifo_config q.used in
    let q1 = record q { config = config; pool = pool1 } in
    if not (is_valid config) then (q, unexpected ErrorCode.config_queue_size_invalid) else elim s1 [
      | unexpected e ↦ (q1, unexpected e)
      | ok u ↦ elim s2 [
        | unexpected e ↦ (record q1 { free = free1 }, unexpected e)
        | ok u' ↦ (record q1 { free = free1; used = used1 }, s3)
      ]
    ]

-- The two loops `while (!isEmpty())` of `stopImpl` and of the guard in `startImpl`.
unfoldable pub drain : ℕ → RxQueue → Heap → Option (RxQueue × Heap)
drain fuel q h = do
  r ← release_all fuel q.used.queue q.pool h
  some (
    record q {
      free = record (q.free) { queue = [] };
      used = record (q.used) { queue = [] };
      pool = r.0;
    },
    r.1,
  )

-- The loop of `startImpl`, with `rounds` to go.
unfoldable pub fill_free : ℕ → Fifo PacketDescriptor → Fifo PacketDescriptor × Status
fill_free zero f = (f, done)
fill_free (suc rounds) f =
    let (f1, pushed) = push empty_descriptor f in
    let rest = fill_free rounds f1 in
    elim pushed [ ok u ↦ rest | unexpected e ↦ (f1, unexpected e) ]

-- `startImpl`
unfoldable pub start_impl : ℕ → RxQueue → Heap → Outcome
start_impl fuel q h =
    let (free1, filled) = fill_free q.config.size q.free in
    let q1 = record q { free = free1 } in
    elim filled [
      | ok u ↦ some (q1, h, done)
      | unexpected e ↦ drain fuel q1 h >>= λ r. some (r.0, r.1, unexpected e)
    ]

-- `stopImpl`
unfoldable pub stop_impl : ℕ → RxQueue → Heap → Outcome
stop_impl fuel q h = drain fuel q h >>= λ r. some (r.0, r.1, done)
