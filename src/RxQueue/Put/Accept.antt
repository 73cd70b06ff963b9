-- ===== src/RxQueue/Put/Accept.antt =====
-- When `RxQueue::put` accepts a packet.
use vnic.Prelude.{
  ℕ, zero, suc, ◌-◌, ◌*◌, ◌^◌, ◌≤◌, ◌<◌, ◌≡◌, refl, arith, false, inl, inr, List, some, Returns,
  Returns->>=, length, ltb, ◌==◌,
}
use vnic.ErrorCode.{Status, done}
use vnic.Packet.Descriptor.{PacketDescriptor}
use vnic.Memory.Heap.{Heap, Malloc, update, raw_buffer}
use vnic.Memory.Pool.{Pool}
use vnic.Fifo.Queue.{is_full}
use vnic.RxQueue.Queue.{
  RxQueue, max_segments, packet_buffer_size, block_size, allocate_segments, fill_segments,
  put_descriptor, put_segments, put,
}
use vnic.RxQueue.Segments.{lent, segments_some, allocate_segments_lem, fill_segments_lem}
use vnic.RxQueue.PutDescriptor.{segment_count, List-cases, accepted}
use vnic.RxQueue.Put.{allocated, filled_descriptor, granted}

-- `malloc` gives `n` blocks, one after the other.
abbrev pub Gives : Malloc → ℕ → Heap → Type 0
Gives m zero h = Unit
Gives m (suc n) h =
    (p : ℕ) × (m.malloc block_size h ≡ some p)
    × Gives m n (update p (some (raw_buffer block_size)) h)

allocate_segments-done :
    (m : Malloc) (n : ℕ) (pool : Pool) (h : Heap)
    → Gives m n h
    → (allocate_segments m n pool h).3 ≡ done
unfolding allocate_segments
allocate_segments-done m zero pool h g = refl
allocate_segments-done m (suc n) pool h (p, e, g) =
    rw (segments_some m n pool h p e)
      (allocate_segments-done m n (lent pool) (update p (some (raw_buffer block_size)) h) g)

abbrev pub Accepted : RxQueue × Heap × Status → Type 0
Accepted r = r.2 ≡ done

put_descriptor-done :
    (desc : PacketDescriptor) (bytes : ℕ) (ps : List ℕ) (q : RxQueue) (h : Heap)
    → 0 < length q.free.queue
    → is_full q.used ≡ false
    → Returns Accepted (put_descriptor desc bytes ps q h)
put_descriptor-done desc bytes ps q h slot room = elim (List-cases q.free.queue) [
  | inl e ↦ absurd (ground arith)
  | inr (d, rest, e) ↦ rw (accepted desc bytes ps q h d rest e room) refl
]

put_segments-done :
    (m : Malloc) (desc : PacketDescriptor) (packet : List ℕ) (segments : ℕ) (q : RxQueue) (h : Heap)
    → Gives m segments h
    → q.pool.live < 2 ^ 64
    → segments ≡ segment_count packet
    → segments ≤ max_segments
    → 0 < length q.free.queue
    → is_full q.used ≡ false
    → Returns Accepted (put_segments m desc packet segments q h)
unfolding allocated
put_segments-done m desc packet segments q h f small n most slot room =
    let good = allocate_segments-done m segments q.pool h f in
    let r = allocate_segments m segments q.pool h in
    let got = allocate_segments_lem m segments q.pool h q.pool.live 0 (omega arith) in
    rw (granted m desc packet segments q h (ground (arith, got.4)) good) (
      Returns->>= _ Accepted (fill_segments r.2 packet 0 r.1) _
        (fill_segments_lem r.2 packet 0 r.1 got.3 got.0.distinct (omega arith)
          (omega (arith, got.2 good)))
        (λ h2 filled.
          put_descriptor-done (filled_descriptor m desc packet segments q h) (length packet) r.2
            (record q { pool = r.0 }) h2 slot room))

-- `put` succeeds whenever it can: for a packet of one byte up to 512 full segments, if `malloc` gives
-- the blocks for it, a descriptor is free and `used` has room. The pool's counter has not wrapped.
pub put-Accepted :
    (m : Malloc) (desc : PacketDescriptor) (packet : List ℕ) (q : RxQueue) (h : Heap)
    → Gives m (segment_count packet) h
    → q.pool.live < 2 ^ 64
    → 0 < length packet
    → length packet ≤ max_segments * packet_buffer_size
    → 0 < length q.free.queue
    → is_full q.used ≡ false
    → Returns Accepted (put m desc packet q h)
unfolding put
put-Accepted m desc packet q h f small n max slot room =
    rw (some_bytes, fits, few)
      (put_segments-done m desc packet (segment_count packet) q h f small refl (ground arith) slot
        room)
  where
    some_bytes : (length packet == 0) ≡ false
    some_bytes = ground arith

    fits : ltb (2 ^ 32 - 1) (length packet) ≡ false
    fits = ground arith

    few : ltb max_segments (segment_count packet) ≡ false
    few = ground arith
