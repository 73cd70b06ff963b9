-- ===== src/Port/Halt.antt =====
-- `VNic::stopQueues`, over queues that run and queues that do not.
use vnic.Prelude.{
  ℕ, ◌≡◌, refl, ◌∙◌, ap, arith, Bool, true, false, ◌&&◌, List, [], ◌∷◌, Returns, Returns->>=, All,
  if◌then◌else◌,
}
use vnic.ErrorCode.{ErrorCode, Status, unexpected, done, eqb}
use vnic.Memory.Heap.{Heap}
use vnic.Stateful.Automaton.{Machine}
use vnic.RxQueue.Lifecycle as Rx
use vnic.RxQueue.Idle.{is_started, answer}
use vnic.RxQueue.Idle as RxIdle
use vnic.TxQueue.Lifecycle as Tx
use vnic.TxQueue.Idle as TxIdle
use vnic.Port.Queues.{RxQueues, TxQueues, keep_first, stop_rx, stop_tx, stop_queues}

abbrev pub all_started : {D : Type 0} → List (Machine D) → Bool
all_started [] = true
all_started (m ∷ ms) = is_started m.state && all_started ms

-- `firstError` after queues that all ran, or did not.
abbrev after : Bool → ErrorCode → ErrorCode
after b first = keep_first first (answer b)

after-after : (b c : Bool) (first : ErrorCode) → after c (after b first) ≡ after (b && c) first
after-after true c first = refl
after-after false true first = refl
after-after false false first = ground arith

abbrev RxHalted : Heap → ErrorCode → RxQueues × Heap × ErrorCode → Type 0
RxHalted h e (qs, h', first) = (h' ≡ h) × All RxIdle.IsIdle qs × (first ≡ e)

stop_rx-Halted :
    (fuel : ℕ) (qs : RxQueues) (h : Heap) (first : ErrorCode)
    → All RxIdle.IsDrained qs
    → Returns (RxHalted h (after (all_started qs) first)) (stop_rx fuel qs h first)
unfolding stop_rx
stop_rx-Halted fuel [] h first drained = (refl, tt, refl)
stop_rx-Halted fuel (q ∷ qs) h first (d, drained) =
    let started = is_started q.state in
    let e = after (all_started (q ∷ qs)) first in
    Returns->>= _ (RxHalted h e) (Rx.stop fuel q h) _ (RxIdle.stop-answer fuel q h d) (λ r s.
      rw (s.0) (
        Returns->>= (RxHalted h (after (all_started qs) (keep_first first r.2))) (RxHalted h e)
          (stop_rx fuel qs h (keep_first first r.2)) _
          (stop_rx-Halted fuel qs h (keep_first first r.2) drained)
          (λ t u. (
            u.0,
            (s.1, u.1),
            u.2
                ∙ ap (λ k. after (all_started qs) (keep_first first k)) (s.2)
                ∙ after-after started (all_started qs) first,
          ))))

abbrev TxHalted : ErrorCode → TxQueues × ErrorCode → Type 0
TxHalted e (qs, first) = All TxIdle.IsIdle qs × (first ≡ e)

pub stop_tx-Halted :
    (qs : TxQueues) (first : ErrorCode)
    → Returns (TxHalted (after (all_started qs) first)) (stop_tx qs first)
unfolding stop_tx
stop_tx-Halted [] first = (tt, refl)
stop_tx-Halted (q ∷ qs) first =
    let e = after (all_started (q ∷ qs)) first in
    Returns->>= _ (TxHalted e) (Tx.stop q) _ (TxIdle.stop-answer q) (λ r s.
      Returns->>= (TxHalted (after (all_started qs) (keep_first first r.1))) (TxHalted e)
        (stop_tx qs (keep_first first r.1)) _ (stop_tx-Halted qs (keep_first first r.1))
        (λ t u. (
          (s.0, u.0),
          u.1
              ∙ ap (λ k. after (all_started qs) (keep_first first k)) (s.1)
              ∙ after-after (is_started q.state) (all_started qs) first,
        )))

-- No queue runs, and the answer.
abbrev pub Halted : Heap → Bool → RxQueues × TxQueues × Heap × Status → Type 0
Halted h b (rx, tx, h', s) = (h' ≡ h) × All RxIdle.IsIdle rx × All TxIdle.IsIdle tx × (s ≡ answer b)

answer-after :
    (b : Bool)
    → (if eqb (after b ErrorCode.none) ErrorCode.none
        then done
        else unexpected (after b ErrorCode.none))
      ≡ answer b
unfolding eqb
answer-after true = refl
answer-after false = refl

-- `stopQueues` of queues without waiting packets is defined and leaves no queue running and the heap
-- as it was, also when the `stop` of some of them is refused. It succeeds if all queues ran, and
-- otherwise answers that the stop was not allowed.
pub stop_queues-Halted :
    (fuel : ℕ) (rx : RxQueues) (tx : TxQueues) (h : Heap)
    → All RxIdle.IsDrained rx
    → Returns (Halted h (all_started rx && all_started tx)) (stop_queues fuel rx tx h)
unfolding stop_queues
stop_queues-Halted fuel rx tx h drained =
    let b = all_started rx && all_started tx in
    Returns->>= _ (Halted h b) (stop_rx fuel rx h ErrorCode.none) _
      (stop_rx-Halted fuel rx h ErrorCode.none drained)
      (λ r s.
        Returns->>= (TxHalted (after (all_started tx) r.2)) (Halted h b) (stop_tx tx r.2) _
          (stop_tx-Halted tx r.2)
          (λ t u.
            let same =
              u.1
              ∙ ap (after (all_started tx)) (s.2)
              ∙ after-after (all_started rx) (all_started tx) ErrorCode.none in
            (
              s.0,
              s.1,
              u.0,
              ap (λ e. if eqb e ErrorCode.none then done else unexpected e) same ∙ answer-after b,
            )))
