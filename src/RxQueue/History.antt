-- ===== src/RxQueue/History.antt =====
-- Any history of a receive queue, and what is left when it is stopped.
use mathlib.Core.Path.{subst}
use vnic.Prelude.{
  ℕ, suc, ◌+◌, ◌≤◌, ◌≡◌, refl, ◌∙◌, ap, sym, arith, List, [], ◌∷◌, ◌++◌, some, length,
  length-append, Returns,
}
use mathlib.Core.List.{append_assoc, append-nil}
use vnic.ErrorCode.{Status, done}
use vnic.Packet.Descriptor.{PacketDescriptor}
use vnic.Memory.Heap.{Heap}
use vnic.Fifo.Queue.{Fifo, push_all, is_full, enqueue}
use vnic.RxQueue.Queue.{RxQueue, max_segments, free, drain, stop_impl, release_all}
use vnic.RxQueue.Ledger.{Entry, descs}
use vnic.RxQueue.Account.{IsLedger}
use vnic.RxQueue.Return.{IsHeld, release_middle, heap_after, pool_after}

pub length-descs : (es : List Entry) → length (descs es) ≡ length es
length-descs [] = refl
length-descs (e ∷ es) = ap suc (length-descs es)

push_all_fits :
    (ds : List PacketDescriptor) (f : Fifo PacketDescriptor)
    → length f.queue + length ds ≤ f.config.capacity
    → push_all ds f ≡ (record f { queue = f.queue ++ ds }, done)
unfolding push_all is_full
push_all_fits [] f h = ground (arith, append-nil f.queue)
push_all_fits (d ∷ ds) f h = ground (
  arith,
  push_all_fits ds (enqueue d f),
  length-append f.queue (d ∷ []),
  append_assoc f.queue (d ∷ []) ds,
)

held :
    (size : ℕ) (h0 : Heap) (q : RxQueue) (h : Heap) (lent used es : List Entry)
    → lent ++ used ≡ es
    → IsLedger size h0 q h lent used
    → IsHeld h0 h q.pool es
held size h0 q h lent used es e l =
    subst (IsHeld h0 h q.pool) e
      (record { stored = l.stored; short = l.short; owned = l.owned; live = l.live })

-- `free` of packets that the application holds succeeds, and they are gone: their blocks are released,
-- their descriptors are free again, and all other packets are as they were.
pub free-IsLedger :
    (fuel size : ℕ) (h0 : Heap) (q : RxQueue) (h : Heap) (before given after used : List Entry)
    → max_segments ≤ fuel
    → IsLedger size h0 q h (before ++ (given ++ after)) used
    → Returns
        (λ r. (r.2 ≡ done) × IsLedger size h0 r.0 r.1 (before ++ after) used)
        (free fuel (descs given) q h)
unfolding free
free-IsLedger fuel size h0 q h before given after used f l =
    rw
      (
        free,
        (release_middle before given (after ++ used) h0 h q.pool fuel all f).0,
        push_all_fits (descs given) q.free fits,
        ap (λ r. r.0) (push_all_fits (descs given) q.free fits),
      )
      (refl, ledger (release_middle before given (after ++ used) h0 h q.pool fuel all f).1)
  where
    grouped : (before ++ (given ++ after)) ++ used ≡ before ++ (given ++ (after ++ used))
    grouped =
        append_assoc before (given ++ after) used ∙ ap (◌++◌ before) (append_assoc given after used)

    all : IsHeld h0 h q.pool (before ++ (given ++ (after ++ used)))
    all = held size h0 q h (before ++ (given ++ after)) used _ grouped l

    total :
        length ((before ++ (given ++ after)) ++ used)
        ≡ length given + length ((before ++ after) ++ used)
    total = omega (
      arith,
      length-append (before ++ (given ++ after)) used,
      length-append before (given ++ after),
      length-append given after,
      length-append (before ++ after) used,
      length-append before after,
    )

    fits : length q.free.queue + length (descs given) ≤ q.free.config.capacity
    fits = omega (arith, l.count, l.capacity, total, length-descs given)

    ledger :
        IsHeld h0
          (heap_after before given (after ++ used) h0 h q.pool fuel)
          (pool_after before given (after ++ used) h0 h q.pool fuel)
          (before ++ (after ++ used))
        → IsLedger size h0
            (record q {
              free = record (q.free) { queue = q.free.queue ++ descs given };
              pool = pool_after before given (after ++ used) h0 h q.pool fuel;
            })
            (heap_after before given (after ++ used) h0 h q.pool fuel)
            (before ++ after)
            used
    ledger k =
        let k' = subst (IsHeld h0 _ _) (sym (append_assoc before after used)) k in
        record {
          queued = l.queued;
          stored = k'.stored;
          short = k'.short;
          owned = k'.owned;
          live = k'.live;
          count =
              omega (
                arith,
                l.count,
                total,
                length-append q.free.queue (descs given),
                length-descs given,
              );
          capacity = l.capacity;
        }

-- What `stopImpl` leaves behind: nothing waits, no descriptor is free, and all that remains allocated
-- are the packets that the application holds.
abbrev pub StopLedger : Heap → List Entry → RxQueue × Heap × Status → Type 0
StopLedger h0 lent (q', h', s) =
    (s ≡ done) × (q'.used.queue ≡ []) × (q'.free.queue ≡ []) × IsHeld h0 h' q'.pool lent

-- `stopImpl` releases exactly the packets that wait.
pub stop_impl-IsLedger :
    (fuel size : ℕ) (h0 : Heap) (q : RxQueue) (h : Heap) (lent used : List Entry)
    → max_segments ≤ fuel
    → IsLedger size h0 q h lent used
    → Returns (StopLedger h0 lent) (stop_impl fuel q h)
unfolding stop_impl drain
stop_impl-IsLedger fuel size h0 q h lent used f l =
    rw (stop_impl, drain, drained) (refl, refl, refl, left)
  where
    grouped : lent ++ used ≡ lent ++ (used ++ [])
    grouped = ap (◌++◌ lent) (sym (append-nil used))

    all : IsHeld h0 h q.pool (lent ++ (used ++ []))
    all = held size h0 q h lent used _ grouped l

    drained :
        release_all fuel q.used.queue q.pool h
        ≡ some (pool_after lent used [] h0 h q.pool fuel, heap_after lent used [] h0 h q.pool fuel)
    drained =
        ap (λ ds. release_all fuel ds q.pool h) l.queued
        ∙ (release_middle lent used [] h0 h q.pool fuel all f).0

    left :
        IsHeld h0
          (heap_after lent used [] h0 h q.pool fuel)
          (pool_after lent used [] h0 h q.pool fuel)
          lent
    left =
        subst (IsHeld h0 _ _) (append-nil lent)
          (release_middle lent used [] h0 h q.pool fuel all f).1
