-- ===== src/Port/Launch.antt =====
-- `startImpl` of a port that has been configured and not been started.
use mathlib.Core.Path.{subst}
use vnic.Prelude.{
  ◌⊎◌, if◌then◌else◌, ◌&&◌, ℕ, ◌<◌, ◌≡◌, refl, ◌∙◌, ap, sym, arith, Bool, true, false, inl, inr,
  List, [], ◌∷◌, some, ◌>>=◌, length, Bool-cases, All, Returns, Returns->>=, Returns-mono,
  Returns-both, All-mono,
}
use vnic.ErrorCode.{ErrorCode, Status, ok, unexpected, done}
use vnic.Memory.Heap.{Heap}
use vnic.Net.Bytes.{IsByte}
use vnic.Stateful.Automaton.{Machine}
use vnic.RxQueue.Queue.{RxQueue}
use vnic.RxQueue.Lifecycle as Rx
use vnic.RxQueue.Idle as RxIdle
use vnic.RxQueue.Prepared.{IsFresh, IsPrepared, start-IsFresh, IsPrepared-Idle}
use vnic.TxQueue.Idle as TxIdle
use vnic.Port.Config.{Config}
use vnic.Port.Delivery.{IsReady, IsServing}
use vnic.Port.Reta.{IsTable}
use vnic.Port.Halt.{Halted, all_started, stop_queues-Halted}
use vnic.Port.State.{Port}
use vnic.Port.Queues.{
  RxQueues, TxQueues, start_rx, start_tx, undo_rx, undo_tx, undo, start_second, start_queues,
  stop_queues,
}
use vnic.Port.Switch.{
  Split, StartRxPost, TxSplit, StartTxPost, start_rx-Split, start_tx-Split, Undone, undo_rx-Idle,
  undo_tx-Idle,
}
use vnic.Port.Control.{start_impl}
use vnic.Port.Bringup.{IsSetUp}

-- All the queues have been started.
abbrev AllFresh : ℕ → Heap → RxQueues × Heap × ℕ × Status → Type 0
AllFresh n h (qs, h', k, s) = (h' ≡ h) × (s ≡ done) × All IsFresh qs × (length qs ≡ n)

start_rx-AllFresh :
    (fuel : ℕ) (qs : RxQueues) (h : Heap)
    → All IsPrepared qs
    → Returns (AllFresh (length qs) h) (start_rx fuel qs h)
unfolding start_rx
start_rx-AllFresh fuel [] h p = (refl, refl, tt, refl)
start_rx-AllFresh fuel (q ∷ qs) h (p, ps) =
    Returns->>= _ (AllFresh (length (q ∷ qs)) h) (Rx.start fuel q h) _ (start-IsFresh fuel q h p)
      (λ r k.
        rw (k.1, k.0)
          (Returns->>= (AllFresh (length qs) h) (AllFresh (length (q ∷ qs)) h) (start_rx fuel qs h)
            _ (start_rx-AllFresh fuel qs h ps) (λ s e. (e.0, e.1, (k.2, e.2), omega (arith, e.3)))))

-- What `startQueues` leaves behind: queues that are ready for packets, or queues that do not run.
-- The latter has to do with the transmit queues, of which there are `k`.
abbrev pub Launched : ℕ → ℕ → Heap → RxQueues × TxQueues × Heap × Status → Type 0
Launched n k h (rx, tx, h', s) = (h' ≡ h) × elim s [
  | ok u ↦ All IsFresh rx × (length rx ≡ n)
  | unexpected e ↦ All RxIdle.IsIdle rx × (0 < k)
]

-- `start` of the transmit queues fails only if there is one.
abbrev IsExcused : ℕ → Status → Type 0
IsExcused k (ok u) = Unit
IsExcused k (unexpected e) = 0 < k

abbrev Refused : ℕ → TxQueues × ℕ × Status → Type 0
Refused k t = StartTxPost t × IsExcused k t.2

start_tx-Refused :
    (tx : TxQueues) → All TxIdle.IsIdle tx → Returns (Refused (length tx)) (start_tx tx)
unfolding start_tx
start_tx-Refused [] idle = ((tt, tt), tt)
start_tx-Refused (q ∷ qs) idle =
    Returns-mono StartTxPost (Refused (length (q ∷ qs))) (start_tx (q ∷ qs))
      (start_tx-Split (q ∷ qs) idle) (λ t k. (k, some_queue t.2))
  where
    some_queue : (s : Status) → IsExcused (length (q ∷ qs)) s
    some_queue (ok u) = tt
    some_queue (unexpected e) = omega arith

module _ (fuel : ℕ) (h : Heap) where
  undo-Launched :
      (n k m t : ℕ) (e : ErrorCode) (rx : RxQueues) (tx : TxQueues)
      → Split n rx
      → TxSplit k tx
      → 0 < t
      → Returns (Launched m t h) (undo fuel n k e rx tx h)
  unfolding undo
  undo-Launched n k m t e rx tx split tsplit several =
      Returns->>= (Undone h) (Launched m t h) (undo_rx fuel n rx h) _
        (undo_rx-Idle fuel n rx h split)
        (λ r u.
          Returns->>= (All TxIdle.IsIdle) (Launched m t h) (undo_tx k tx) _
            (undo_tx-Idle k tx tsplit) (λ tx' i. (u.0, (u.1, several))))

  start_second-Launched :
      (n : ℕ) (rx : RxQueues) (tx : TxQueues)
      → Split n rx
      → All IsFresh rx
      → All TxIdle.IsIdle tx
      → Returns (Launched (length rx) (length tx) h) (start_second fuel n rx tx h)
  unfolding start_second
  start_second-Launched n rx tx split fresh idle =
      Returns->>= (Refused (length tx)) (Launched (length rx) (length tx) h) (start_tx tx) _
        (start_tx-Refused tx idle) answered
    where
      answered :
          (t : TxQueues × ℕ × Status)
          → Refused (length tx) t
          → Returns (Launched (length rx) (length tx) h) (elim t.2 [
            | ok u ↦ some (rx, t.0, h, done)
            | unexpected e ↦ undo fuel n t.1 e rx t.0 h
          ])
      answered (tx1, k, ok u) r = (refl, (fresh, refl))
      answered (tx1, k, unexpected e) ((tsplit, truns), several) =
          undo-Launched n k (length rx) (length tx) e rx tx1 split tsplit several

  -- `startQueues` of receive queues that have never run: they are left ready for packets, or, when a
  -- transmit queue refuses to start, they do not run.
  start_queues-Launched :
      (rx : RxQueues) (tx : TxQueues)
      → All IsPrepared rx
      → All TxIdle.IsIdle tx
      → Returns (Launched (length rx) (length tx) h) (start_queues fuel rx tx h)
  unfolding start_queues
  start_queues-Launched rx tx prepared itx =
      Returns->>= (λ r. StartRxPost h r × AllFresh (length rx) h r)
        (Launched (length rx) (length tx) h) (start_rx fuel rx h) _
        (Returns-both (StartRxPost h) (AllFresh (length rx) h) (start_rx fuel rx h)
          (start_rx-Split fuel rx h (All-mono IsPrepared RxIdle.IsIdle IsPrepared-Idle rx prepared))
          (start_rx-AllFresh fuel rx h prepared))
        answered
    where
      answered :
          (r : RxQueues × Heap × ℕ × Status)
          → StartRxPost h r × AllFresh (length rx) h r
          → Returns (Launched (length rx) (length tx) h) (elim r.3 [
            | unexpected e ↦ undo fuel r.2 0 e r.0 tx r.1
            | ok u ↦ start_second fuel r.2 r.0 tx r.1
          ])
      answered (rx1, h', n, unexpected e) ((same, split, all), fresh) = absurd (cc (fresh.1))
      answered (rx1, h', n, ok u) ((same, split, all), fresh) =
          subst (λ m. Returns (Launched m (length tx) h) (start_second fuel n rx1 tx h')) (fresh.3)
            (rw same (start_second-Launched n rx1 tx split (fresh.2) itx))

-- A port that is in service and has not been used, or, for a cause, one whose receive queues do not
-- run.
abbrev pub Up : {Text : Type 0} → List (List ℕ) → Type 0 → Heap → Port Text × Heap × Status → Type 0
Up frames Cause h (port, h', s) = (h' ≡ h) × elim s [
  | ok u ↦ IsServing port × (port.link.rx_queue.queue ≡ frames) × All IsFresh port.rx_queues
  | unexpected e ↦ All RxIdle.IsIdle port.rx_queues × Cause
]

-- What keeps a valid configuration from being started: the thread, or a transmit queue.
abbrev pub Unlaunched : {Text : Type 0} → Config Text → Bool → Type 0
Unlaunched c spawns = (spawns ≡ false) ⊎ (0 < c.tx_queue_count)

fresh-IsReady : (q : Machine RxQueue) → IsFresh q → IsReady q
fresh-IsReady q (s, u, live, full) = (omega (arith, live), inr (omega (arith, full)))

fresh-IsDrained : (q : Machine RxQueue) → IsFresh q → RxIdle.IsDrained q
fresh-IsDrained q fresh = fresh.1

module _ {Text : Type 0} (c : Config Text) (frames : List (List ℕ))
    (key : All IsByte c.rss.key) where
  -- The port with the queues that run.
  in_service :
      (port : Port Text) (rx : RxQueues) (tx : TxQueues) (thread : Bool)
      → IsSetUp c frames port
      → All IsFresh rx
      → length rx ≡ length port.rx_queues
      → IsServing (record port { rx_queues = rx; tx_queues = tx; thread = thread })
  in_service port rx tx thread s fresh n = record {
    some_queue = omega (arith, n, s.some_queue);
    table = λ on.
        subst (λ m. IsTable m port.reta) (sym n)
          (s.table (ap (λ k. k.rss.enabled) (sym s.config) ∙ on));
    ready = All-mono IsFresh IsReady fresh-IsReady rx fresh;
    key = subst (λ k. All IsByte k.rss.key) (sym s.config) key;
  }

  -- `startImpl` of a port that has been set up.
  pub start_impl-Up :
      (fuel : ℕ) (spawns : Bool) (port : Port Text) (h : Heap)
      → IsSetUp c frames port
      → Returns (Up frames (Unlaunched c spawns) h) (start_impl fuel spawns port h)
  unfolding start_impl
  start_impl-Up fuel spawns port h s =
      Returns->>= (Launched (length port.rx_queues) (length port.tx_queues) h)
        (Up frames (Unlaunched c spawns) h) (start_queues fuel port.rx_queues port.tx_queues h) _
        (start_queues-Launched fuel h port.rx_queues port.tx_queues s.rx s.tx) answered
    where
      answered :
          (r : RxQueues × TxQueues × Heap × Status)
          → Launched (length port.rx_queues) (length port.tx_queues) h r
          → Returns (Up frames (Unlaunched c spawns) h) (elim r.3 [
            | unexpected e ↦
                some (record port { rx_queues = r.0; tx_queues = r.1 }, r.2, unexpected e)
            | ok u ↦
                if spawns
                then some
                    (record port { rx_queues = r.0; tx_queues = r.1; thread = true }, r.2, done)
                else (stop_queues fuel r.0 r.1 r.2 >>= λ s. some (
                  record port { rx_queues = s.0; tx_queues = s.1 },
                  s.2,
                  unexpected ErrorCode.thread_create_failed,
                ))
          ])
      answered (rx, tx, h', unexpected e) (same, (idle, several)) =
          (same, (idle, inr (omega (arith, several, s.tx_count))))
      answered (rx, tx, h', ok u) (same, (fresh, n)) = elim (Bool-cases spawns) [
        | inl made ↦ rw made (same, (in_service port rx tx true s fresh n, s.waiting, fresh))
        | inr failed ↦
            rw (failed, same)
              (Returns->>= (Halted h (all_started rx && all_started tx))
                (Up frames ((false ≡ false) ⊎ (0 < c.tx_queue_count)) h) (stop_queues fuel rx tx h)
                _
                (stop_queues-Halted fuel rx tx h
                  (All-mono IsFresh RxIdle.IsDrained fresh-IsDrained rx fresh))
                (λ t k. (k.0, (k.1, inl refl))))
      ]
