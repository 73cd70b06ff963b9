-- ===== src/RxQueue/Start.antt =====
-- What `RxQueue::startImpl` does to the free list.
use vnic.Prelude.{
  ℕ, zero, suc, ◌+◌, ◌≤◌, ◌<◌, ◌≡◌, refl, ◌∙◌, ap, arith, true, false, Bool-cases, inl, inr, List,
  [], ◌∷◌, ◌++◌, some, length, ◌==◌, replicate, if◌then◌else◌, length-append,
}
use mathlib.Core.List.{append_assoc, append-nil}
use vnic.ErrorCode.{ErrorCode, unexpected, done}
use vnic.Packet.Descriptor.{PacketDescriptor, empty_descriptor}
use vnic.Memory.Heap.{Heap}
use vnic.Fifo.Queue.{Fifo, enqueue, push, is_full}
use vnic.RxQueue.Queue.{RxQueue, fill_free, drain, release_all, start_impl}

fill_free_stop :
    (n : ℕ) (f : Fifo PacketDescriptor)
    → is_full f ≡ true
    → fill_free (suc n) f ≡ (f, unexpected ErrorCode.queue_full)
unfolding fill_free push
fill_free_stop n f full = ground arith

fill_free_go :
    (n : ℕ) (f : Fifo PacketDescriptor)
    → is_full f ≡ false
    → fill_free (suc n) f ≡ fill_free n (enqueue empty_descriptor f)
unfolding fill_free push
fill_free_go n f room = ground arith

-- The loop fills a queue that has room for all its rounds.
fill_free-done :
    (n : ℕ) (f : Fifo PacketDescriptor)
    → length f.queue + n ≤ f.config.capacity
    → fill_free n f ≡ (record f { queue = f.queue ++ replicate n empty_descriptor }, done)
unfolding fill_free push is_full
fill_free-done zero f h = ground (arith, append-nil f.queue)
fill_free-done (suc n) f h = ground (
  arith,
  fill_free-done n (enqueue empty_descriptor f),
  length-append f.queue (empty_descriptor ∷ []),
  append_assoc f.queue (empty_descriptor ∷ []) (replicate n empty_descriptor),
)

-- It fails in any other bounded queue.
fill_free_full :
    (n : ℕ) (f : Fifo PacketDescriptor)
    → 0 < f.config.capacity
    → f.config.capacity < length f.queue + n
    → length f.queue ≤ f.config.capacity
    → (fill_free n f).1 ≡ unexpected ErrorCode.queue_full
unfolding is_full
fill_free_full zero f c h b = absurd (omega arith)
fill_free_full (suc n) f c h b = elim (Bool-cases (is_full f)) [
  | inl full ↦ ap (λ r. r.1) (fill_free_stop n f full)
  | inr room ↦
      ap (λ r. r.1) (fill_free_go n f room)
      ∙ fill_free_full n (enqueue empty_descriptor f) c
          (omega (arith, length-append f.queue (empty_descriptor ∷ [])))
          (ground (arith, length-append f.queue (empty_descriptor ∷ [])))
]

module _ (fuel : ℕ) (q : RxQueue) (h : Heap) where
  pub start_filled :
      (f : Fifo PacketDescriptor)
      → fill_free q.config.size q.free ≡ (f, done)
      → start_impl fuel q h ≡ some (record q { free = f }, h, done)
  unfolding start_impl
  start_filled f e = ground arith

  pub start_failed :
      (e : ErrorCode)
      → (fill_free q.config.size q.free).1 ≡ unexpected e
      → q.used.queue ≡ []
      → start_impl fuel q h
        ≡ some (
          record q {
            free = record ((fill_free q.config.size q.free).0) { queue = [] };
            used = record (q.used) { queue = [] };
          },
          h,
          unexpected e,
        )
  unfolding start_impl drain release_all
  start_failed e s u = ground arith

fill_free-config : (n : ℕ) (f : Fifo PacketDescriptor) → (fill_free n f).0.config ≡ f.config
unfolding fill_free
fill_free-config zero f = refl
fill_free-config (suc n) f = elim (Bool-cases (is_full f)) [
  | inl full ↦ ap (λ r. r.0.config) (fill_free_stop n f full)
  | inr room ↦
      ap (λ r. r.0.config) (fill_free_go n f room) ∙ fill_free-config n (enqueue empty_descriptor f)
]

length-nil : (xs : List PacketDescriptor) → (length xs == 0) ≡ true → xs ≡ []
length-nil [] e = refl
length-nil (x ∷ xs) e = absurd (ground arith)

-- `startImpl` of a queue whose lists have the configured size as their capacity: if the free list is
-- empty it is filled with that many descriptors, and otherwise the call fails with `queue_full` and
-- empties it. Nothing is in `used`, and the heap is left alone.
pub start_impl_lem :
    (fuel : ℕ) (q : RxQueue) (h : Heap)
    → 0 < q.config.size
    → q.free.config.capacity ≡ q.config.size
    → length q.free.queue ≤ q.config.size
    → q.used.queue ≡ []
    → start_impl fuel q h ≡ (
        if length q.free.queue == 0
        then some (
          record q { free = record (q.free) { queue = replicate q.config.size empty_descriptor } },
          h,
          done,
        )
        else some (
          record q { free = record (q.free) { queue = [] }; used = record (q.used) { queue = [] } },
          h,
          unexpected ErrorCode.queue_full,
        ))
start_impl_lem fuel q h n c b u = elim (Bool-cases (length q.free.queue == 0)) [
  | inl empty ↦ rw empty (
      start_filled fuel q h _ (fill_free-done q.config.size q.free (ground arith))
      ∙ ap
          (λ xs. some (
            record q {
              free = record (q.free) { queue = xs ++ replicate q.config.size empty_descriptor };
            },
            h,
            done,
          ))
          (length-nil q.free.queue empty))
  | inr left ↦ rw left (
      start_failed fuel q h ErrorCode.queue_full
        (fill_free_full q.config.size q.free (omega arith) (ground arith) (omega arith)) u
      ∙ ap
          (λ k. some (
            record q {
              free = record { queue = []; config = k };
              used = record (q.used) { queue = [] };
            },
            h,
            unexpected ErrorCode.queue_full,
          ))
          (fill_free-config q.config.size q.free))
]
