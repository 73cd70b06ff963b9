-- ===== src/Port/Bringup.antt =====
-- A port from its configuration to its `start`, by way of the configurations of its queues.
use mathlib.Core.Path.{subst}
use vnic.Prelude.{
  ℕ, ◌<◌, ◌≡◌, refl, ◌∙◌, sym, arith, true, inl, inr, List, [], ◌∷◌, Option, some, ◌>>=◌, length,
  set, leb, Bool-cases, All, All-set, All-get_elem?, length-set, Returns, Returns->>=,
}
use vnic.Memory.Heap.{Heap}
use vnic.Stateful.Automaton.{Machine}
use vnic.RxQueue.Queue.{RxQueue, is_valid}
use vnic.RxQueue.Queue
use vnic.RxQueue.Lifecycle as Rx
use vnic.RxQueue.Prepared.{IsPrepared, configure-IsPrepared}
use vnic.TxQueue.Lifecycle as Tx
use vnic.TxQueue.Idle as TxIdle
use vnic.Port.Config.{Config}
use vnic.Port.State.{Port}
use vnic.Port.Reta.{IsTable}
use vnic.Port.Control.{configure_rx, configure_tx}

-- A call `configure(queueId, config)` of one of the two kinds of queues.
pub data Setup : Type 0 where
  receives : ℕ → Queue.Config → Setup
  transmits : ℕ → Setup

-- A port that has been configured and not been started.
pub record IsSetUp {Text : Type 0} (c : Config Text) (frames : List (List ℕ)) (port : Port Text)
    : Type 0 where
  pub config : port.config ≡ c
  pub table : c.rss.enabled ≡ true → IsTable (length port.rx_queues) port.reta
  pub some_queue : 0 < length port.rx_queues
  pub rx : All IsPrepared port.rx_queues
  pub tx : All TxIdle.IsIdle port.tx_queues
  pub tx_count : length port.tx_queues ≡ c.tx_queue_count
  pub waiting : port.link.rx_queue.queue ≡ frames

module _ {Text : Type 0} where
  -- The calls one after the other; what they answer is ignored.
  unfoldable pub set_up : List Setup → Port Text → Heap → Option (Port Text × Heap)
  set_up [] port h = some (port, h)
  set_up (Setup.receives queue_id config ∷ calls) port h = do
    r ← configure_rx queue_id config port h
    set_up calls r.0 r.1
  set_up (Setup.transmits queue_id ∷ calls) port h = do
    r ← configure_tx queue_id port
    set_up calls r.0 h

module _ {Text : Type 0} (c : Config Text) (frames : List (List ℕ)) where
  -- The port with another receive queue.
  replaced_rx :
      (port : Port Text) (i : ℕ) (q : Machine RxQueue)
      → IsSetUp c frames port
      → IsPrepared q
      → IsSetUp c frames (record port { rx_queues = set port.rx_queues i q })
  replaced_rx port i q s p =
      let same = length-set port.rx_queues i q in
      record {
        config = s.config;
        table = λ on. subst (λ n. IsTable n port.reta) (sym same) (s.table on);
        some_queue = omega (arith, same, s.some_queue);
        rx = All-set IsPrepared port.rx_queues i q s.rx p;
        tx = s.tx;
        tx_count = s.tx_count;
        waiting = s.waiting;
      }

  configure_rx-IsSetUp :
      (queue_id : ℕ) (config : Queue.Config) (port : Port Text) (h : Heap)
      → IsSetUp c frames port
      → Returns (λ r. (r.1 ≡ h) × IsSetUp c frames r.0) (configure_rx queue_id config port h)
  unfolding configure_rx
  configure_rx-IsSetUp queue_id config port h s =
      elim (Bool-cases (leb (length port.rx_queues) queue_id)) [
        | inl outside ↦ rw (configure_rx, outside) (refl, s)
        | inr inside ↦ elim (Bool-cases (is_valid config)) [
          | inr bad ↦ rw (configure_rx, inside, bad) (refl, s)
          | inl valid ↦
              let (q, at', p) =
                All-get_elem? IsPrepared port.rx_queues queue_id s.rx (ground arith) in
              rw (configure_rx, inside, valid, at')
                (Returns->>= _ (λ r. (r.1 ≡ h) × IsSetUp c frames r.0) (Rx.configure config q h) _
                  (configure-IsPrepared config q h valid p)
                  (λ r k. (k.0, replaced_rx port queue_id r.0 s k.1)))
        ]
      ]

  configure_tx-IsSetUp :
      (queue_id : ℕ) (port : Port Text)
      → IsSetUp c frames port
      → Returns (λ r. IsSetUp c frames r.0) (configure_tx queue_id port)
  unfolding configure_tx
  configure_tx-IsSetUp queue_id port s = elim (Bool-cases (leb (length port.tx_queues) queue_id)) [
    | inl outside ↦ rw (configure_tx, outside) s
    | inr inside ↦
        let (q, at', p) = All-get_elem? TxIdle.IsIdle port.tx_queues queue_id s.tx (ground arith) in
        rw (configure_tx, inside, at')
          (Returns->>= _ (λ r. IsSetUp c frames r.0) (Tx.configure q) _ (TxIdle.configure-Idle q p)
            (λ r k. record {
              config = s.config;
              table = s.table;
              some_queue = s.some_queue;
              rx = s.rx;
              tx = All-set TxIdle.IsIdle port.tx_queues queue_id r.0 s.tx k;
              tx_count = length-set port.tx_queues queue_id r.0 ∙ s.tx_count;
              waiting = s.waiting;
            }))
  ]

  -- The configurations of queues leave the heap alone.
  pub set_up-IsSetUp :
      (calls : List Setup) (port : Port Text) (h : Heap)
      → IsSetUp c frames port
      → Returns (λ r. (r.1 ≡ h) × IsSetUp c frames r.0) (set_up calls port h)
  unfolding set_up
  set_up-IsSetUp [] port h s = (refl, s)
  set_up-IsSetUp (Setup.receives queue_id config ∷ calls) port h s =
      Returns->>= _ (λ r. (r.1 ≡ h) × IsSetUp c frames r.0) (configure_rx queue_id config port h) _
        (configure_rx-IsSetUp queue_id config port h s)
        (λ r k. rw (k.0) (set_up-IsSetUp calls r.0 h k.1))
  set_up-IsSetUp (Setup.transmits queue_id ∷ calls) port h s =
      Returns->>= _ (λ r. (r.1 ≡ h) × IsSetUp c frames r.0) (configure_tx queue_id port) _
        (configure_tx-IsSetUp queue_id port s) (λ r k. set_up-IsSetUp calls r.0 h k)
