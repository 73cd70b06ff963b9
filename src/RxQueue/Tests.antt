-- ===== src/RxQueue/Tests.antt =====
-- A queue of two descriptors and a packet of two segments.
use vnic.Prelude.{
  refl, ℕ, zero, suc, ap, ◌≡◌, ◌+◌, List, [], ◌∷◌, Option, none, some, Returns, Option-cases, arith,
  replicate, is_some, if◌then◌else◌, inl, inr, ◌++◌, drop,
}
use vnic.Stats.{zero_stats}
use vnic.Packet.Descriptor.{empty_descriptor}
use vnic.Memory.Heap.{Heap, Malloc, PacketBuffer, raw_buffer, update}
use vnic.RxQueue.Queue.{RxQueue, put, take, free, start_impl}
use vnic.RxQueue.Ledger.{Entry, descs}
use vnic.RxQueue.Account.{IsLedger}
use vnic.RxQueue.Return.{take-IsLedger}
use vnic.RxQueue.History.{free-IsLedger}
use vnic.RxQueue.Session.{Call, Returned, session, session-Returned}
use vnic.RxQueue.Start.{start_impl_lem}
use vnic.ErrorCode.{ErrorCode, unexpected, done}
use vnic.RxQueue.PutDescriptor.{PutPost}
use vnic.RxQueue.Put.{put-PutPost}
use vnic.Fifo.Queue.{is_full}
use vnic.RxQueue.Put.Accept.{Accepted, put-Accepted}
use vnic.RxQueue.Release.{Reversible, free-put}

-- The first of the addresses `p`, `p + 1`, …, of `n`, that is not in use.
abbrev first_unused : ℕ → ℕ → Heap → Option ℕ
first_unused zero p h = none
first_unused (suc n) p h = if is_some (h p) then first_unused n (p + 1) h else some p

first_unused_lem : (n p : ℕ) (h : Heap) (x : ℕ) → first_unused n p h ≡ some x → h x ≡ none
first_unused_lem zero p h x e = absurd (cc e)
first_unused_lem (suc n) p h x e = elim (Option-cases (h p)) [
  | inl unused ↦ ground (arith, at_p)
  | inr (b, used) ↦ ground (arith, first_unused_lem n (p + 1) h x)
]
  where
    at_p : p ≡ x → h p ≡ h x
    at_p = ap h

-- Six blocks, at the addresses from 1 on.
abbrev six_blocks : Malloc
six_blocks = record { malloc = λ size. first_unused 6 1; fresh = λ size. first_unused_lem 6 1 }

-- One block is in use.
abbrev heap : Heap
heap = update 1 (some (raw_buffer 2064)) (λ p. none)

abbrev queue : RxQueue
queue = record {
  free = record {
    queue = empty_descriptor ∷ empty_descriptor ∷ [];
    config = record { capacity = 2; socket_id = 0 };
  };
  used = record { queue = []; config = record { capacity = 2; socket_id = 0 } };
  pool = record {
    config = record { block_size = 2048; capacity = 2; socket_id = 0 };
    live = 1;
    total = 1;
  };
  stats = zero_stats;
  config = record { queue_id = 0; size = 2; socket_id = 0 };
}

abbrev packet : List ℕ
packet = replicate 2050 7

put-PutPost_example :
    Returns (PutPost queue heap packet) (put six_blocks empty_descriptor packet queue heap)
put-PutPost_example =
    put-PutPost six_blocks empty_descriptor packet queue heap (omega arith) (ground arith)

free-put_example :
    Returns (Reversible 512 queue heap) (put six_blocks empty_descriptor packet queue heap)
free-put_example =
    free-put six_blocks empty_descriptor packet queue heap 512 (omega arith) (ground arith)
      (ground arith)

put-Accepted_example : Returns Accepted (put six_blocks empty_descriptor packet queue heap)
unfolding is_full
put-Accepted_example =
    put-Accepted six_blocks empty_descriptor packet queue heap (2, refl, (3, refl, tt))
      (omega arith) (ground arith) (ground arith) (ground arith) refl

-- Two descriptors are left in the free list.
start_impl_lem_example :
    start_impl 512 queue heap
    ≡ some (
      record queue { free = record (queue.free) { queue = [] } },
      heap,
      unexpected ErrorCode.queue_full,
    )
start_impl_lem_example = start_impl_lem 512 queue heap (ground arith) refl (ground arith) refl

abbrev started : RxQueue
started = record queue { pool = record (queue.pool) { live = 0; total = 0 } }

-- Two packets are put; the first is taken and given back, the second still waits at the end.
session-Returned_example : Returns (Returned (λ p. none)) (
    session 512
      (Call.puts six_blocks empty_descriptor packet
        ∷ Call.takes
        ∷ Call.frees 0 1
        ∷ Call.puts six_blocks empty_descriptor packet
        ∷ [])
      started
      (λ p. none))
session-Returned_example =
    session-Returned 512
      (Call.puts six_blocks empty_descriptor packet
        ∷ Call.takes
        ∷ Call.frees 0 1
        ∷ Call.puts six_blocks empty_descriptor packet
        ∷ [])
      started (λ p. none) (omega arith) refl refl refl

-- Two packets of one block each wait; one is lent.
abbrev one_byte : ℕ → PacketBuffer
one_byte b = record { next = none; length = 1; payload = b ∷ []; size = 2064 }

abbrev entry : ℕ → Entry
entry p = record {
  desc = record empty_descriptor { buffer = some p; total_length = 1 };
  chain = p ∷ [];
  packet = p ∷ [];
}

abbrev three_blocks : Heap
three_blocks =
    update 5 (some (one_byte 5))
      (update 6 (some (one_byte 6)) (update 7 (some (one_byte 7)) (λ p. none)))

abbrev loaded_queue : RxQueue
loaded_queue = record queue {
  free = record (queue.free) { queue = []; config = record { capacity = 3; socket_id = 0 } };
  used = record (queue.used) { queue = (entry 6).desc ∷ (entry 7).desc ∷ [] };
  pool = record (queue.pool) { live = 3 };
}

loaded_queue-IsLedger :
    IsLedger 3 (λ p. none) loaded_queue three_blocks (entry 5 ∷ []) (entry 6 ∷ entry 7 ∷ [])
loaded_queue-IsLedger = record {
  queued = refl;
  stored = (
    (refl, (one_byte 5, [], refl, refl, refl, (refl, refl))),
    (
      (refl, (one_byte 6, [], refl, refl, refl, (refl, refl))),
      ((refl, (one_byte 7, [], refl, refl, refl, (refl, refl))), tt),
    ),
  );
  short = ground arith;
  owned = record {
    fresh = λ q e. refl;
    kept = λ q e. ground arith;
    present = λ q e. ground arith;
    distinct = ground arith;
  };
  live = omega arith;
  count = omega arith;
  capacity = refl;
}

take-IsLedger_example :
    let (q', taken) = take loaded_queue in
    (taken ≡ descs (vnic.Prelude.take 512 (entry 6 ∷ entry 7 ∷ [])))
    × IsLedger 3
        (λ p. none)
        q'
        three_blocks
        ((entry 5 ∷ []) ++ vnic.Prelude.take 512 (entry 6 ∷ entry 7 ∷ []))
        (drop 512 (entry 6 ∷ entry 7 ∷ []))
take-IsLedger_example =
    take-IsLedger 3 (λ p. none) loaded_queue three_blocks (entry 5 ∷ []) (entry 6 ∷ entry 7 ∷ [])
      loaded_queue-IsLedger

free-IsLedger_example :
    Returns
      (λ r. (r.2 ≡ done) × IsLedger 3 (λ p. none) r.0 r.1 ([] ++ []) (entry 6 ∷ entry 7 ∷ []))
      (free 512 (descs (entry 5 ∷ [])) loaded_queue three_blocks)
free-IsLedger_example =
    free-IsLedger 512 3 (λ p. none) loaded_queue three_blocks [] (entry 5 ∷ []) []
      (entry 6 ∷ entry 7 ∷ []) (omega arith) loaded_queue-IsLedger
