-- ===== src/RxQueue/Lifecycle.antt =====
-- The operations of the automaton on a receive queue in its heap, its `start`, and its destructor.
-- `fuel` bounds the length of a chain that is released.
use vnic.Prelude.{ℕ, Option, some, ◌>>=◌, ◌==◌, if◌then◌else◌}
use vnic.ErrorCode.{Status, ok, unexpected}
use vnic.Memory.Heap.{Heap}
use vnic.Memory.Pool.{empty_pool}
use vnic.Fifo.Queue.{empty_fifo}
use vnic.Stats.{zero_stats}
use vnic.Stateful.Automaton.{State, raw, Machine}
use vnic.Stateful.Automaton
use vnic.RxQueue.Queue.{RxQueue, Config}
use vnic.RxQueue.Queue

-- `RxQueue()`: a stopped queue with the default configuration.
abbrev pub new_queue : Machine RxQueue
new_queue = record {
  state = State.stopped;
  object = record {
    free = empty_fifo;
    used = empty_fifo;
    pool = empty_pool;
    stats = zero_stats;
    config = record { queue_id = 0; size = 512; socket_id = 0 };
  };
}

-- A call's result.
abbrev pub Outcome : Type 0
Outcome = Option (Machine RxQueue × Heap × Status)

-- One of the operations of `Stateful<RxQueue>`, which takes its implementation, on a queue and the
-- heap.
abbrev pub on_heap :
    ((RxQueue × Heap → Automaton.Outcome (RxQueue × Heap))
      → Machine (RxQueue × Heap)
      → Automaton.Outcome (Machine (RxQueue × Heap)))
    → (RxQueue → Heap → Queue.Outcome)
    → Machine RxQueue
    → Heap
    → Outcome
on_heap operation impl m h = do
  r ←
      operation (λ o. impl o.0 o.1 >>= λ s. some ((s.0, s.1), s.2))
        (record { state = m.state; object = (m.object, h) })
  some (record { state = r.0.state; object = r.0.object.0 }, r.0.object.1, r.1)

-- `configure`
unfoldable pub configure : Config → Machine RxQueue → Heap → Outcome
configure config m h =
    on_heap Automaton.configure
      (λ q g. some ((Queue.configure_impl config q).0, g, (Queue.configure_impl config q).1)) m h

-- `Stateful<RxQueue>::start`
unfoldable pub base_start : ℕ → Machine RxQueue → Heap → Outcome
base_start fuel m h = on_heap Automaton.start (Queue.start_impl fuel) m h

-- `RxQueue::start`
unfoldable pub start : ℕ → Machine RxQueue → Heap → Outcome
start fuel m h =
    let configured = do
      r ← configure m.object.config m h
      elim r.2 [ unexpected e ↦ some (r.0, r.1, unexpected e) | ok u ↦ base_start fuel r.0 r.1 ]
    in if raw m.state == raw State.stopped then configured else base_start fuel m h

-- `stop`
unfoldable pub stop : ℕ → Machine RxQueue → Heap → Outcome
stop fuel m h = on_heap Automaton.stop (Queue.stop_impl fuel) m h

-- `~RxQueue`: the heap that is left.
unfoldable pub destroy : ℕ → Machine RxQueue → Heap → Option Heap
destroy fuel m h = Queue.stop_impl fuel m.object h >>= λ r. some r.1
