-- ===== src/Port/Queues.antt =====
-- `startQueues` and `stopQueues`, and the destructors of the receive queues.
use vnic.Prelude.{ℕ, zero, suc, List, [], ◌∷◌, Option, some, ◌>>=◌, if◌then◌else◌}
use vnic.ErrorCode.{ErrorCode, eqb, Status, ok, unexpected, done}
use vnic.Memory.Heap.{Heap}
use vnic.Stateful.Automaton.{Machine}
use vnic.RxQueue.Queue.{RxQueue}
use vnic.RxQueue.Lifecycle as Rx
use vnic.TxQueue.Queue.{TxQueue}
use vnic.TxQueue.Lifecycle as Tx

abbrev pub RxQueues : Type 0
RxQueues = List (Machine RxQueue)

abbrev pub TxQueues : Type 0
TxQueues = List (Machine TxQueue)

-- A queue's error, or another one in place of `None`.
abbrev pub or_else : ErrorCode → ErrorCode → ErrorCode
or_else e other = if eqb e ErrorCode.none then other else e

-- The first loop of `startQueues`: the queues, the heap, `startedRx`, and the error that it returns.
unfoldable pub start_rx : ℕ → RxQueues → Heap → Option (RxQueues × Heap × ℕ × Status)
start_rx fuel [] h = some ([], h, 0, done)
start_rx fuel (q ∷ qs) h = do
  r ← Rx.start fuel q h
  elim r.2 [
    | unexpected e ↦ some (r.0 ∷ qs, r.1, 0, unexpected (or_else e ErrorCode.queue_start_failed))
    | ok u ↦ start_rx fuel qs r.1 >>= λ s. some (r.0 ∷ s.0, s.1, suc s.2, s.3)
  ]

-- The second loop, with `startedTx`.
unfoldable pub start_tx : TxQueues → Option (TxQueues × ℕ × Status)
start_tx [] = some ([], 0, done)
start_tx (q ∷ qs) = do
  r ← Tx.start q
  elim r.1 [
    | unexpected e ↦ some (r.0 ∷ qs, 0, unexpected (or_else e ErrorCode.queue_start_failed))
    | ok u ↦ start_tx qs >>= λ s. some (r.0 ∷ s.0, suc s.1, s.2)
  ]

-- The loops of `rollback`: the first `started` queues are stopped, their answers are ignored.
unfoldable pub undo_rx : ℕ → ℕ → RxQueues → Heap → Option (RxQueues × Heap)
undo_rx fuel zero qs h = some (qs, h)
undo_rx fuel (suc started) [] h = Option.none
undo_rx fuel (suc started) (q ∷ qs) h = do
  r ← Rx.stop fuel q h
  s ← undo_rx fuel started qs r.1
  some (r.0 ∷ s.0, s.1)

unfoldable pub undo_tx : ℕ → TxQueues → Option TxQueues
undo_tx zero qs = some qs
undo_tx (suc started) [] = Option.none
undo_tx (suc started) (q ∷ qs) = do r ← Tx.stop q; s ← undo_tx started qs; some (r.0 ∷ s)

-- An error return of `startQueues`, with `startedRx` and `startedTx`: `rollback` runs.
unfoldable pub undo :
    ℕ
    → ℕ
    → ℕ
    → ErrorCode
    → RxQueues
    → TxQueues
    → Heap
    → Option (RxQueues × TxQueues × Heap × Status)
undo fuel started_rx started_tx e rx tx h = do
  r ← undo_rx fuel started_rx rx h
  t ← undo_tx started_tx tx
  some (r.0, t, r.1, unexpected e)

-- `startQueues` from the second loop on.
unfoldable pub start_second :
    ℕ → ℕ → RxQueues → TxQueues → Heap → Option (RxQueues × TxQueues × Heap × Status)
start_second fuel started_rx rx tx h = do
  t ← start_tx tx
  elim t.2 [ ok u ↦ some (rx, t.0, h, done) | unexpected e ↦ undo fuel started_rx t.1 e rx t.0 h ]

-- `startQueues`
unfoldable pub start_queues :
    ℕ → RxQueues → TxQueues → Heap → Option (RxQueues × TxQueues × Heap × Status)
start_queues fuel rx tx h = do
  r ← start_rx fuel rx h
  elim r.3 [ unexpected e ↦ undo fuel r.2 0 e r.0 tx r.1 | ok u ↦ start_second fuel r.2 r.0 tx r.1 ]

-- The first error of the loops of `stopQueues`.
abbrev pub keep_first : ErrorCode → Status → ErrorCode
keep_first first (ok u) = first
keep_first first (unexpected e) =
    if eqb first ErrorCode.none then or_else e ErrorCode.queue_stop_failed else first

-- The loops of `stopQueues`, with `firstError`.
unfoldable pub stop_rx : ℕ → RxQueues → Heap → ErrorCode → Option (RxQueues × Heap × ErrorCode)
stop_rx fuel [] h first = some ([], h, first)
stop_rx fuel (q ∷ qs) h first = do
  r ← Rx.stop fuel q h
  s ← stop_rx fuel qs r.1 (keep_first first r.2)
  some (r.0 ∷ s.0, s.1, s.2)

unfoldable pub stop_tx : TxQueues → ErrorCode → Option (TxQueues × ErrorCode)
stop_tx [] first = some ([], first)
stop_tx (q ∷ qs) first = do
  r ← Tx.stop q
  s ← stop_tx qs (keep_first first r.1)
  some (r.0 ∷ s.0, s.1)

-- `stopQueues`
unfoldable pub stop_queues :
    ℕ → RxQueues → TxQueues → Heap → Option (RxQueues × TxQueues × Heap × Status)
stop_queues fuel rx tx h = do
  r ← stop_rx fuel rx h ErrorCode.none
  t ← stop_tx tx r.2
  some (r.0, t.0, r.1, if eqb t.1 ErrorCode.none then done else unexpected t.1)

-- `rxQueues_.clear()`: the destructors run.
unfoldable pub clear_rx : ℕ → RxQueues → Heap → Option Heap
clear_rx fuel [] h = some h
clear_rx fuel (q ∷ qs) h = Rx.destroy fuel q h >>= λ h1. clear_rx fuel qs h1
