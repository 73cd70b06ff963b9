-- ===== src/Port/Switch.antt =====
-- `VNic::startQueues` with its rollback.
use vnic.Prelude.{ℕ, zero, suc, ◌≡◌, refl, [], ◌∷◌, some, ◌>>=◌, Returns, Returns->>=, All}
use vnic.ErrorCode.{ErrorCode, Status, ok, unexpected, done}
use vnic.Memory.Heap.{Heap}
use vnic.Stateful.Automaton.{Machine}
use vnic.RxQueue.Queue.{RxQueue}
use vnic.TxQueue.Queue.{TxQueue}
use vnic.RxQueue.Lifecycle as Rx
use vnic.RxQueue.Idle as RxIdle
use vnic.TxQueue.Lifecycle as Tx
use vnic.TxQueue.Idle as TxIdle
use vnic.Port.Queues.{
  RxQueues, TxQueues, or_else, start_rx, start_tx, undo_rx, undo_tx, undo, start_second,
  start_queues,
}

-- The first `n` queues run, the others do not.
abbrev pub Split : ℕ → RxQueues → Type 0
Split zero qs = All RxIdle.IsIdle qs
Split (suc n) [] = ⊥
Split (suc n) (q ∷ qs) = RxIdle.IsRunning q × Split n qs

abbrev pub StartRxPost : Heap → RxQueues × Heap × ℕ × Status → Type 0
StartRxPost h (qs, h', n, s) =
    (h' ≡ h) × Split n qs × elim s [ ok u ↦ All RxIdle.IsRunning qs | unexpected e ↦ Unit ]

pub start_rx-Split :
    (fuel : ℕ) (qs : RxQueues) (h : Heap)
    → All RxIdle.IsIdle qs
    → Returns (StartRxPost h) (start_rx fuel qs h)
unfolding start_rx
start_rx-Split fuel [] h idle = (refl, tt, tt)
start_rx-Split fuel (q ∷ qs) h (i, idle) =
    Returns->>= (RxIdle.StartPost h) (StartRxPost h) (Rx.start fuel q h) _
      (RxIdle.start-StartPost fuel q h i) (continued (start_rx-Split fuel qs h idle))
  where
    joined :
        (q' : Machine RxQueue)
        → RxIdle.IsRunning q'
        → (s : RxQueues × Heap × ℕ × Status) → StartRxPost h s
        → StartRxPost h (q' ∷ s.0, s.1, suc s.2, s.3)
    joined q' runs (qs', h', n, ok u) (same, split, all) = (same, (runs, split), (runs, all))
    joined q' runs (qs', h', n, unexpected e) (same, split, all) = (same, (runs, split), tt)

    continued :
        Returns (StartRxPost h) (start_rx fuel qs h)
        → (r : Machine RxQueue × Heap × Status) → RxIdle.StartPost h r
        → Returns (StartRxPost h) (elim r.2 [
          | unexpected e ↦
              some (r.0 ∷ qs, r.1, 0, unexpected (or_else e ErrorCode.queue_start_failed))
          | ok u ↦ start_rx fuel qs r.1 >>= λ s. some (r.0 ∷ s.0, s.1, suc s.2, s.3)
        ])
    continued rest (q', h', unexpected e) (same, i') = (same, (i', idle), tt)
    continued rest (q', h', ok u) (same, runs) = rw same (
        Returns->>= (StartRxPost h) (StartRxPost h) (start_rx fuel qs h) _ rest
          (λ s post. joined q' runs s post))

abbrev pub Undone : Heap → RxQueues × Heap → Type 0
Undone h (qs, h') = (h' ≡ h) × All RxIdle.IsIdle qs

pub undo_rx-Idle :
    (fuel n : ℕ) (qs : RxQueues) (h : Heap) → Split n qs → Returns (Undone h) (undo_rx fuel n qs h)
unfolding undo_rx
undo_rx-Idle fuel zero qs h split = (refl, split)
undo_rx-Idle fuel (suc n) [] h split = elim split [ ]
undo_rx-Idle fuel (suc n) (q ∷ qs) h (runs, split) =
    Returns->>= _ (Undone h) (Rx.stop fuel q h) _ (RxIdle.stop-Idle fuel q h runs.0) (λ r stopped.
      rw (stopped.0) (
        Returns->>= (Undone h) (Undone h) (undo_rx fuel n qs h) _ (undo_rx-Idle fuel n qs h split)
          (λ s rest. (rest.0, (stopped.1, rest.1)))))

-- The same of the transmit queues.
abbrev pub TxSplit : ℕ → TxQueues → Type 0
TxSplit zero qs = All TxIdle.IsIdle qs
TxSplit (suc n) [] = ⊥
TxSplit (suc n) (q ∷ qs) = TxIdle.IsRunning q × TxSplit n qs

abbrev pub StartTxPost : TxQueues × ℕ × Status → Type 0
StartTxPost (qs, n, s) =
    TxSplit n qs × elim s [ ok u ↦ All TxIdle.IsRunning qs | unexpected e ↦ Unit ]

pub start_tx-Split : (qs : TxQueues) → All TxIdle.IsIdle qs → Returns StartTxPost (start_tx qs)
unfolding start_tx
start_tx-Split [] idle = (tt, tt)
start_tx-Split (q ∷ qs) (i, idle) =
    Returns->>= TxIdle.StartPost StartTxPost (Tx.start q) _ (TxIdle.start-StartPost q i)
      (continued (start_tx-Split qs idle))
  where
    joined :
        (q' : Machine TxQueue)
        → TxIdle.IsRunning q'
        → (s : TxQueues × ℕ × Status) → StartTxPost s
        → StartTxPost (q' ∷ s.0, suc s.1, s.2)
    joined q' runs (qs', n, ok u) (split, all) = ((runs, split), (runs, all))
    joined q' runs (qs', n, unexpected e) (split, all) = ((runs, split), tt)

    continued :
        Returns StartTxPost (start_tx qs)
        → (r : Machine TxQueue × Status) → TxIdle.StartPost r
        → Returns StartTxPost (elim r.1 [
          | unexpected e ↦ some (r.0 ∷ qs, 0, unexpected (or_else e ErrorCode.queue_start_failed))
          | ok u ↦ start_tx qs >>= λ s. some (r.0 ∷ s.0, suc s.1, s.2)
        ])
    continued rest (q', unexpected e) i' = ((i', idle), tt)
    continued rest (q', ok u) runs =
        Returns->>= StartTxPost StartTxPost (start_tx qs) _ rest (λ s post. joined q' runs s post)

pub undo_tx-Idle :
    (n : ℕ) (qs : TxQueues) → TxSplit n qs → Returns (All TxIdle.IsIdle) (undo_tx n qs)
unfolding undo_tx
undo_tx-Idle zero qs split = split
undo_tx-Idle (suc n) [] split = elim split [ ]
undo_tx-Idle (suc n) (q ∷ qs) (runs, split) =
    Returns->>= _ (All TxIdle.IsIdle) (Tx.stop q) _ (TxIdle.stop-Idle q) (λ r stopped.
      Returns->>= (All TxIdle.IsIdle) (All TxIdle.IsIdle) (undo_tx n qs) _ (undo_tx-Idle n qs split)
        (λ s rest. (stopped.0, rest)))

-- All queues run, or none does.
abbrev pub AllOrNone : Heap → RxQueues × TxQueues × Heap × Status → Type 0
AllOrNone h (rx, tx, h', s) = (h' ≡ h) × elim s [
  | ok u ↦ All RxIdle.IsRunning rx × All TxIdle.IsRunning tx
  | unexpected e ↦ All RxIdle.IsIdle rx × All TxIdle.IsIdle tx
]

undo-AllOrNone :
    (fuel n k : ℕ) (e : ErrorCode) (rx : RxQueues) (tx : TxQueues) (h : Heap)
    → Split n rx
    → TxSplit k tx
    → Returns (AllOrNone h) (undo fuel n k e rx tx h)
unfolding undo
undo-AllOrNone fuel n k e rx tx h split tsplit =
    Returns->>= (Undone h) (AllOrNone h) (undo_rx fuel n rx h) _ (undo_rx-Idle fuel n rx h split)
      (λ r u.
        Returns->>= (All TxIdle.IsIdle) (AllOrNone h) (undo_tx k tx) _ (undo_tx-Idle k tx tsplit)
          (λ tx' t. (u.0, (u.1, t))))

start_second-AllOrNone :
    (fuel n : ℕ) (rx : RxQueues) (tx : TxQueues) (h : Heap)
    → Split n rx
    → All RxIdle.IsRunning rx
    → All TxIdle.IsIdle tx
    → Returns (AllOrNone h) (start_second fuel n rx tx h)
unfolding start_second
start_second-AllOrNone fuel n rx tx h split runs idle =
    Returns->>= StartTxPost (AllOrNone h) (start_tx tx) _ (start_tx-Split tx idle)
      (λ t post. answered t post)
  where
    answered :
        (t : TxQueues × ℕ × Status)
        → StartTxPost t
        → Returns (AllOrNone h) (elim t.2 [
          | ok u ↦ some (rx, t.0, h, done)
          | unexpected e ↦ undo fuel n t.1 e rx t.0 h
        ])
    answered (tx1, k, ok u) (tsplit, truns) = (refl, (runs, truns))
    answered (tx1, k, unexpected e) (tsplit, truns) =
        undo-AllOrNone fuel n k e rx tx1 h split tsplit

-- `startQueues` of queues that do not run, and of receive queues without packets, is defined and
-- starts all of them, or fails and leaves all of them idle: the rollback stops every queue that it
-- had started. The heap is as it was.
pub start_queues-AllOrNone :
    (fuel : ℕ) (rx : RxQueues) (tx : TxQueues) (h : Heap)
    → All RxIdle.IsIdle rx
    → All TxIdle.IsIdle tx
    → Returns (AllOrNone h) (start_queues fuel rx tx h)
unfolding start_queues
start_queues-AllOrNone fuel rx tx h irx itx =
    Returns->>= (StartRxPost h) (AllOrNone h) (start_rx fuel rx h) _ (start_rx-Split fuel rx h irx)
      answered
  where
    answered :
        (r : RxQueues × Heap × ℕ × Status)
        → StartRxPost h r
        → Returns (AllOrNone h) (elim r.3 [
          | unexpected e ↦ undo fuel r.2 0 e r.0 tx r.1
          | ok u ↦ start_second fuel r.2 r.0 tx r.1
        ])
    answered (rx1, h', n, unexpected e) (same, split, all) =
        rw same (undo-AllOrNone fuel n 0 e rx1 tx h split itx)
    answered (rx1, h', n, ok u) (same, split, all) =
        rw same (start_second-AllOrNone fuel n rx1 tx h split all itx)
