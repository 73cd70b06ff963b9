-- ===== src/RxQueue/Halted.antt =====
-- `stop` of a running receive queue of which the application holds no packet.
use mathlib.Core.Path.{fun_ext}
use vnic.Prelude.{ℕ, ◌≤◌, ◌≡◌, refl, ap, arith, List, [], Returns, Returns->>=, if◌then◌else◌}
use vnic.ErrorCode.{Status, done}
use vnic.Memory.Heap.{Heap}
use vnic.Stateful.Automaton.{State, Machine}
use vnic.Stateful.Lifecycle.{Kind, allowed, is_ok}
use vnic.RxQueue.Queue.{RxQueue, max_segments, stop_impl}
use vnic.RxQueue.Lifecycle.{stop}
use vnic.RxQueue.Idle.{on_heap_by_table}
use vnic.RxQueue.Ledger.{Entry}
use vnic.RxQueue.Account.{IsLedger}
use vnic.RxQueue.History.{stop_impl-IsLedger}

-- The heap is that without the queue's packets, of which none is left.
abbrev pub Emptied : Heap → Machine RxQueue × Heap × Status → Type 0
Emptied g (m, h, s) =
    (s ≡ done)
    × (h ≡ g)
    × (m.state ≡ State.stopped)
    × (m.object.used.queue ≡ [])
    × (m.object.pool.live ≡ 0)

pub stop-Emptied :
    (fuel size : ℕ) (g : Heap) (m : Machine RxQueue) (h : Heap) (used : List Entry)
    → max_segments ≤ fuel
    → m.state ≡ State.started
    → IsLedger size g m.object h [] used
    → Returns (Emptied g) (stop fuel m h)
unfolding stop
stop-Emptied fuel size g m h used f s l =
    rw (stop, on_heap_by_table Kind.stops (stop_impl fuel) m h, ap (allowed Kind.stops) s)
      (Returns->>= _ (Emptied g) (stop_impl fuel m.object h) _
        (stop_impl-IsLedger fuel size g m.object h [] used f l)
        (λ r k. (
          k.0,
          fun_ext (λ p. k.3.owned.kept p refl),
          ap (λ d. if is_ok d then State.stopped else State.error) k.0,
          k.1,
          omega (arith, k.3.live),
        )))
