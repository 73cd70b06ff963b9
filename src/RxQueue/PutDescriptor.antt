-- ===== src/RxQueue/PutDescriptor.antt =====
-- The end of `RxQueue::put`: what it leaves behind, and the descriptor of a packet that is stored.
use vnic.Prelude.{
  ℕ, zero, suc, ◌+◌, ◌-◌, ◌/◌, ◌%◌, ◌^◌, ◌<◌, ◌≡◌, refl, ◌∙◌, ap, arith, true, false, inl, inr, ◌⊎◌,
  Bool-cases, List, [], ◌∷◌, ◌++◌, some, Returns, length, length-append,
}
use vnic.ErrorCode.{ErrorCode, value, eqb, Status, ok, unexpected, done}
use vnic.Packet.Descriptor.{PacketDescriptor}
use vnic.Memory.Heap.{Heap}
use vnic.Memory.Pool.{Pool}
use vnic.Memory.Chain.{Owns, Holds, released, deallocate_all-Owns}
use vnic.Stats.{fetch_overflows, fetch_processed_bytes, fetch_processed_packets}
use vnic.Fifo.Queue.{Fifo, enqueue, push, pop, is_full}
use vnic.Fifo.Laws.{IsBounded}
use vnic.RxQueue.Queue.{RxQueue, packet_buffer_size, give_back, put_descriptor}
use vnic.RxQueue.Segments.{IsLive, Filled}

pub released-live :
    (n live : ℕ) (pool : Pool) → live < 2 ^ 64 → IsLive live n pool → (released n pool).live ≡ live
released-live zero live pool h l = omega arith
released-live (suc n) live pool h l =
    released-live n live (record pool { live = (pool.live + 2 ^ 64 - 1) % 2 ^ 64 }) h (omega arith)

pub Filled-Owns :
    (h h1 h2 : Heap) (ps bytes : List ℕ) → Owns h h1 ps → Filled h1 h2 ps bytes → Owns h h2 ps
Filled-Owns h h1 h2 ps bytes o f = record {
  fresh = o.fresh;
  kept = λ q e. f.kept q e ∙ o.kept q e;
  present = λ q e. f.there q ∙ o.present q e;
  distinct = o.distinct;
}

-- What a refused packet leaves behind: every block and every descriptor is back.
abbrev pub Restored : RxQueue → Heap → RxQueue × Heap → Type 0
Restored q h (q', h') =
    (h' ≡ h)
    × (q'.pool.live ≡ q.pool.live)
    × (q'.used ≡ q.used)
    × (length q'.free.queue ≡ length q.free.queue)
    × (q'.free.config ≡ q.free.config)

-- The packet's length in segments, rounded up.
abbrev pub segment_count : List ℕ → ℕ
segment_count packet = (length packet + packet_buffer_size - 1) / packet_buffer_size

-- What an accepted packet leaves behind: a descriptor at the end of `used` in place of one of
-- `free`, and new blocks that hold the packet.
abbrev pub Stored : RxQueue → Heap → List ℕ → RxQueue × Heap → Type 0
Stored q h packet (q', h') =
    (ps : List ℕ) × (desc : PacketDescriptor) × Owns h h' ps
    × Holds h' ps desc.buffer packet
    × (desc.total_length ≡ length packet)
    × (q'.used.queue ≡ q.used.queue ++ desc ∷ [])
    × (length q'.free.queue + 1 ≡ length q.free.queue)
    × (q'.free.config ≡ q.free.config)
    × IsLive q.pool.live (length ps) q'.pool
    × (length ps ≡ segment_count packet)

abbrev pub PutPost : RxQueue → Heap → List ℕ → RxQueue × Heap × Status → Type 0
PutPost q h packet (q', h', s) = elim s [
  | ok u ↦ Stored q h packet (q', h')
  | unexpected e ↦ Restored q h (q', h')
]

pub give_back_lem :
    (ps : List ℕ) (h h1 : Heap)
    → Owns h h1 ps
    → (e : ErrorCode) (q : RxQueue)
    → give_back ps e q h1 ≡ some (record q { pool = released (length ps) q.pool }, h, unexpected e)
unfolding give_back
give_back_lem ps h h1 o e q = rw (deallocate_all-Owns ps q.pool h h1 o) refl

-- What remains after the segments are filled.
abbrev pub DescriptorPost :
    PacketDescriptor → RxQueue → ℕ → Heap → Heap → RxQueue × Heap × Status → Type 0
DescriptorPost desc q live h h2 (q', h', s) = elim s [
  | ok u ↦
      (h' ≡ h2)
      × (q'.used.queue ≡ q.used.queue ++ desc ∷ [])
      × (length q'.free.queue + 1 ≡ length q.free.queue)
      × (q'.free.config ≡ q.free.config)
      × (q'.pool ≡ q.pool)
  | unexpected e ↦
      (h' ≡ h)
      × (q'.pool.live ≡ live)
      × (q'.used ≡ q.used)
      × (length q'.free.queue ≡ length q.free.queue)
      × (q'.free.config ≡ q.free.config)
]

module _ (desc : PacketDescriptor) (bytes : ℕ) (ps : List ℕ) (q : RxQueue) (h2 : Heap) where
  no_slot :
      q.free.queue ≡ []
      → put_descriptor desc bytes ps q h2
        ≡ give_back ps ErrorCode.queue_free_list_empty
            (record q { stats = fetch_overflows 1 q.stats })
            h2
  unfolding put_descriptor pop push
  no_slot e = ground arith

  used_full :
      (d : PacketDescriptor) (rest : List PacketDescriptor)
      → q.free.queue ≡ d ∷ rest
      → is_full q.used ≡ true
      → put_descriptor desc bytes ps q h2
        ≡ give_back ps ErrorCode.queue_used_list_full
            (record q { free = (push d (record (q.free) { queue = rest })).0 })
            h2
  unfolding put_descriptor pop push eqb value
  used_full d rest e full = ground arith

  pub accepted :
      (d : PacketDescriptor) (rest : List PacketDescriptor)
      → q.free.queue ≡ d ∷ rest
      → is_full q.used ≡ false
      → put_descriptor desc bytes ps q h2
        ≡ some (
          record q {
            free = record (q.free) { queue = rest };
            used = enqueue desc q.used;
            stats = fetch_processed_bytes bytes (fetch_processed_packets 1 q.stats);
          },
          h2,
          done,
        )
  unfolding put_descriptor pop push
  accepted d rest e open' = ground arith

pub Status-cases : (s : Status) → (s ≡ done) ⊎ ((e : ErrorCode) × (s ≡ unexpected e))
Status-cases (ok u) = inl refl
Status-cases (unexpected e) = inr (e, refl)

pub List-cases {ℓ} :
    {A : Type ℓ} (xs : List A) → (xs ≡ []) ⊎ ((x : A) × (rest : List A) × (xs ≡ x ∷ rest))
List-cases [] = inl refl
List-cases (x ∷ xs) = inr (x, xs, refl)

-- The slot that was taken goes back to a queue that has room for it.
returned_slot :
    (f : Fifo PacketDescriptor) (d : PacketDescriptor) (rest : List PacketDescriptor)
    → f.queue ≡ d ∷ rest
    → IsBounded f
    → length (push d (record f { queue = rest })).0.queue ≡ length f.queue
unfolding push is_full
returned_slot f d rest e b = ground (arith, length-append rest (d ∷ []), ap length e)

push-config : (d : PacketDescriptor) (f : Fifo PacketDescriptor) → (push d f).0.config ≡ f.config
unfolding push
push-config d f = ground arith

pub put_descriptor_lem :
    (desc : PacketDescriptor) (bytes : ℕ) (ps : List ℕ) (q : RxQueue) (live : ℕ) (h h2 : Heap)
    → Owns h h2 ps
    → live < 2 ^ 64
    → IsLive live (length ps) q.pool
    → IsBounded q.free
    → Returns (DescriptorPost desc q live h h2) (put_descriptor desc bytes ps q h2)
put_descriptor_lem desc bytes ps q live h h2 o small l b = elim (List-cases q.free.queue) [
  | inl e ↦
      rw (no_slot desc bytes ps q h2 e, give_back_lem ps h h2 o) (refl, back, refl, refl, refl)
  | inr (d, rest, e) ↦ elim (Bool-cases (is_full q.used)) [
    | inl full ↦
        rw (used_full desc bytes ps q h2 d rest e full, give_back_lem ps h h2 o)
          (
            refl,
            back,
            refl,
            returned_slot q.free d rest e b,
            push-config d (record (q.free) { queue = rest }),
          )
    | inr open' ↦
        rw (accepted desc bytes ps q h2 d rest e open')
          (refl, refl, omega (arith, ap length e), refl, refl)
  ]
]
  where
    back : (released (length ps) q.pool).live ≡ live
    back = released-live (length ps) live q.pool small l
