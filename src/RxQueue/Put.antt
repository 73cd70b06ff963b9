-- ===== src/RxQueue/Put.antt =====
-- `RxQueue::put` stores the packet or changes nothing that the application can observe.
pub mod Accept
use vnic.Prelude.{
  ◌≤◌, ℕ, zero, suc, ◌+◌, ◌-◌, ◌/◌, ◌%◌, ◌^◌, ◌<◌, ◌≡◌, refl, ◌∙◌, ap, arith, true, false, inl, inr,
  ◌⊎◌, Bool-cases, List, [], ◌∷◌, ◌++◌, some, ◌>>=◌, Returns, Returns-mono, Returns->>=, length,
  ltb, ◌==◌, length-append,
}
use mathlib.Core.List.{head?}
use vnic.ErrorCode.{ErrorCode, value, eqb, Status, ok, unexpected, done}
use vnic.Packet.Descriptor.{PacketDescriptor}
use vnic.Memory.Heap.{Heap, Malloc}
use vnic.Memory.Pool.{Pool}
use vnic.Memory.Chain.{Owns, Holds, released, deallocate_all-Owns}
use vnic.Stats.{fetch_overflows, fetch_processed_bytes, fetch_processed_packets}
use vnic.Fifo.Queue.{Fifo, enqueue, push, pop, is_full}
use vnic.Fifo.Laws.{IsBounded}
use vnic.RxQueue.Queue.{
  RxQueue, max_segments, packet_buffer_size, allocate_segments, fill_segments, give_back,
  put_descriptor, put_segments, put,
}
use vnic.RxQueue.Segments.{Allocated, IsLive, Filled, allocate_segments_lem, fill_segments_lem}
use vnic.RxQueue.PutDescriptor.{
  released-live, Filled-Owns, Restored, segment_count, Stored, PutPost, give_back_lem,
  DescriptorPost, Status-cases, put_descriptor_lem,
}

module _ (m : Malloc) (desc : PacketDescriptor) (packet : List ℕ) (segments : ℕ) (q : RxQueue)
    (h : Heap) where
  allocated : Pool × Heap × List ℕ × Status
  allocated = allocate_segments m segments q.pool h

  filled_descriptor : PacketDescriptor
  filled_descriptor = record desc {
    buffer = head? allocated.2;
    total_length = length packet % 2 ^ 32;
  }

  refused :
      (e : ErrorCode)
      → ltb max_segments (length allocated.2) ≡ false
      → allocated.3 ≡ unexpected e
      → put_segments m desc packet segments q h
        ≡ give_back allocated.2 e (record q { pool = allocated.0 }) allocated.1
  unfolding put_segments allocated
  refused e few s = ground arith

  granted :
      ltb max_segments (length allocated.2) ≡ false
      → allocated.3 ≡ done
      → put_segments m desc packet segments q h ≡ (
          fill_segments allocated.2 packet 0 allocated.1 >>= λ h2.
          put_descriptor filled_descriptor
            (length packet)
            allocated.2
            (record q { pool = allocated.0 })
            h2)
  unfolding put_segments allocated filled_descriptor
  granted few s = ground arith

  put_segments_lem :
      q.pool.live < 2 ^ 64
      → IsBounded q.free
      → length packet < 2 ^ 32
      → segments ≡ segment_count packet
      → segments ≤ max_segments
      → Returns (PutPost q h packet) (put_segments m desc packet segments q h)
  unfolding allocated filled_descriptor allocate_segments
  put_segments_lem small b bytes room most = elim (Status-cases allocated.3) [
    | inr (e, bad) ↦
        rw (refused e few bad, give_back_lem allocated.2 h allocated.1 got.0)
          (refl, back, refl, refl, refl)
    | inl good ↦ rw (granted few good) (
        Returns->>= _ (PutPost q h packet) (fill_segments allocated.2 packet 0 allocated.1) _
          (fill_segments_lem allocated.2 packet 0 allocated.1 got.3 got.0.distinct (omega arith)
            (omega (arith, got.2 good, room)))
          (stored good))
  ]
    where
      got : Allocated h (q.pool.live + 0) segments allocated
      got = allocate_segments_lem m segments q.pool h q.pool.live 0 (omega arith)

      live' : IsLive q.pool.live (length allocated.2) allocated.0
      live' = omega (arith, got.1)

      few : ltb max_segments (length allocated.2) ≡ false
      few = ground (arith, got.4)

      back : (released (length allocated.2) allocated.0).live ≡ q.pool.live
      back = released-live (length allocated.2) q.pool.live allocated.0 small live'

      conclude :
          allocated.3 ≡ done
          → (h2 : Heap) → Owns h h2 allocated.2
          → Holds h2 allocated.2 (head? allocated.2) packet
          → (r : RxQueue × Heap × Status)
          → DescriptorPost filled_descriptor (record q { pool = allocated.0 }) q.pool.live h h2 r
          → PutPost q h packet r
      conclude good h2 o held (q', h', unexpected e) d = d
      conclude good h2 o held (q', h', ok u) d = rw (d.0) (
        allocated.2,
        filled_descriptor,
        o,
        held,
        omega (arith, bytes),
        d.1,
        d.2,
        d.3,
        rw (d.4) live',
        omega (arith, room, got.2 good),
      )

      stored :
          allocated.3 ≡ done
          → (h2 : Heap) → Filled allocated.1 h2 allocated.2 packet
          → Returns (PutPost q h packet) (
              put_descriptor filled_descriptor
                (length packet)
                allocated.2
                (record q { pool = allocated.0 })
                h2)
      stored good h2 f =
          let o = Filled-Owns h allocated.1 h2 allocated.2 packet got.0 f in
          Returns-mono _ _
            (put_descriptor filled_descriptor (length packet) allocated.2
              (record q { pool = allocated.0 }) h2)
            (put_descriptor_lem filled_descriptor (length packet) allocated.2
              (record q { pool = allocated.0 }) q.pool.live h h2 o small live' b)
            (conclude good h2 o f.holds)

-- `put` of any packet is defined: no freed or foreign block is touched and nothing is read outside
-- the packet. If it succeeds, a descriptor at the end of `used` holds the packet, byte for byte, in a
-- chain of as many blocks as it needs, none of them allocated before, one descriptor has left `free`, and everything else
-- on the heap is as it was. If it fails, the heap, the number of blocks that the pool has lent, `used`
-- and the size and capacity of `free` are as they were. The pool's counter has not wrapped, and `free` is within
-- its capacity.
pub put-PutPost :
    (m : Malloc) (desc : PacketDescriptor) (packet : List ℕ) (q : RxQueue) (h : Heap)
    → q.pool.live < 2 ^ 64
    → IsBounded q.free
    → Returns (PutPost q h packet) (put m desc packet q h)
unfolding put
put-PutPost m desc packet q h small b = elim (Bool-cases (length packet == 0)) [
  | inl empty ↦ rw (empty) unchanged
  | inr some' ↦ elim (Bool-cases (ltb (2 ^ 32 - 1) (length packet))) [
    | inl large ↦ rw (some', large) unchanged
    | inr fits ↦ elim (Bool-cases (ltb max_segments segments)) [
      | inl many ↦ rw (some', fits, many) unchanged
      | inr few ↦
          rw (some', fits, few)
            (put_segments_lem m desc packet segments q h small b (ground arith) refl (ground arith))
    ]
  ]
]
  where
    segments : ℕ
    segments = (length packet + packet_buffer_size - 1) / packet_buffer_size

    unchanged :
        (h ≡ h)
        × (q.pool.live ≡ q.pool.live)
        × (q.used ≡ q.used)
        × (length q.free.queue ≡ length q.free.queue)
        × (q.free.config ≡ q.free.config)
    unchanged = (refl, refl, refl, refl, refl)
