-- ===== src/RxQueue/Release.antt =====
-- `RxQueue::free` after `RxQueue::put`.
use vnic.Prelude.{
  ℕ, ◌+◌, ◌^◌, ◌≤◌, ◌<◌, ◌≡◌, refl, ap, arith, List, [], ◌∷◌, ◌++◌, some, Returns, Returns-mono,
  length, length-append,
}
use vnic.ErrorCode.{Status, ok, unexpected, done}
use vnic.Packet.Descriptor.{PacketDescriptor}
use vnic.Memory.Heap.{Heap, Malloc}
use vnic.Memory.Chain.{Owns, Holds, released, deallocate_all-Owns, release_chain-Holds}
use vnic.Fifo.Queue.{Fifo, push_all, is_full}
use vnic.Fifo.Laws.{IsBounded}
use vnic.RxQueue.Queue.{RxQueue, release_all, free, put}
use vnic.RxQueue.PutDescriptor.{segment_count, Stored, PutPost, released-live}
use vnic.RxQueue.Put.{put-PutPost}

-- The heap and the pool's count are as in `h` and `q`, and `free` is as long as in `q`.
abbrev pub Undone : RxQueue → Heap → RxQueue × Heap × Status → Type 0
Undone q h (q', h', s) =
    (s ≡ done)
    × (h' ≡ h)
    × (q'.pool.live ≡ q.pool.live)
    × (length q'.free.queue ≡ length q.free.queue)

-- After an accepted packet, the descriptor that `put` queued can be freed, which undoes the call.
abbrev pub Reversible : ℕ → RxQueue → Heap → RxQueue × Heap × Status → Type 0
Reversible fuel q h (q', h', s) =
    s ≡ done
    → (desc : PacketDescriptor) × (q'.used.queue ≡ q.used.queue ++ desc ∷ [])
      × Returns (Undone q h) (free fuel (desc ∷ []) q' h')

chain_released :
    (fuel : ℕ) (desc : PacketDescriptor) (ps packet : List ℕ) (q : RxQueue) (h h' : Heap)
    → Owns h h' ps
    → Holds h' ps desc.buffer packet
    → length ps ≤ fuel
    → release_all fuel (desc ∷ []) q.pool h' ≡ some (released (length ps) q.pool, h)
unfolding release_all
chain_released fuel desc ps packet q h h' o c f =
    rw
      (
        release_chain-Holds ps fuel desc.buffer packet q.pool h' c o.distinct f,
        deallocate_all-Owns ps q.pool h h' o,
      )
      refl

-- A queue that has lost one element from within its capacity takes one again.
room_for_one :
    (f g : Fifo PacketDescriptor) (d : PacketDescriptor)
    → IsBounded f
    → length g.queue + 1 ≡ length f.queue
    → g.config ≡ f.config
    → push_all (d ∷ []) g ≡ (record g { queue = g.queue ++ d ∷ [] }, done)
unfolding push_all is_full
room_for_one f g d b l c = ground (arith, ap (λ k. k.capacity) c)

free-Stored :
    (fuel : ℕ) (q q' : RxQueue) (h h' : Heap) (packet : List ℕ)
    → q.pool.live < 2 ^ 64
    → IsBounded q.free
    → segment_count packet ≤ fuel
    → Stored q h packet (q', h')
    → (desc : PacketDescriptor) × (q'.used.queue ≡ q.used.queue ++ desc ∷ [])
      × Returns (Undone q h) (free fuel (desc ∷ []) q' h')
unfolding free
free-Stored fuel q q' h h' packet small b f (ps, desc, o, c, total, u, l, cfg, live, n) = (
  desc,
  u,
  rw
      (
        chain_released fuel desc ps packet q' h h' o c (omega arith),
        room_for_one q.free q'.free desc b l cfg,
      )
      (
        refl,
        refl,
        released-live (length ps) q.pool.live q'.pool small live,
        omega (
          arith,
          length-append q'.free.queue (desc ∷ []),
          ap (λ r. length r.0.queue) (room_for_one q.free q'.free desc b l cfg),
        ),
      ),
)

-- After a `put` that succeeds, `free` of the descriptor that it has queued succeeds and undoes it: the
-- heap is the one before, the pool has lent as many blocks as before, and `free` is as long. The
-- pool's counter has not wrapped, `free` is within its capacity, and the fuel covers the chain.
pub free-put :
    (m : Malloc) (desc : PacketDescriptor) (packet : List ℕ) (q : RxQueue) (h : Heap) (fuel : ℕ)
    → q.pool.live < 2 ^ 64
    → IsBounded q.free
    → segment_count packet ≤ fuel
    → Returns (Reversible fuel q h) (put m desc packet q h)
free-put m desc packet q h fuel small b f =
    Returns-mono _ _ (put m desc packet q h) (put-PutPost m desc packet q h small b) undo
  where
    undo : (r : RxQueue × Heap × Status) → PutPost q h packet r → Reversible fuel q h r
    undo (q', h', ok u) s d = free-Stored fuel q q' h h' packet small b f s
    undo (q', h', unexpected e) s d = absurd (cc d)
