-- ===== src/Port/Lifetime.antt =====
-- A port from its configuration, over any history, to the stop of its queues.
use mathlib.Core.Path.{subst}
use vnic.Prelude.{
  ◌⊎◌, ◌≢◌, ℕ, ◌<◌, ◌≤◌, ◌≡◌, refl, ap, sym, arith, Bool, false, inl, inr, List, Option, some,
  ◌>>=◌, All, All-replicate, Returns, Returns->>=, Returns-mono, All-mono,
}
use vnic.ErrorCode.{ErrorCode, Status, ok, unexpected}
use vnic.Memory.Heap.{Heap}
use vnic.Net.Bytes.{IsByte}
use vnic.Stateful.Automaton.{Machine}
use vnic.RxQueue.Queue.{RxQueue, max_segments}
use vnic.RxQueue.Lifecycle as Rx
use vnic.RxQueue.Idle as RxIdle
use vnic.RxQueue.Prepared.{IsPrepared, new_queue-IsPrepared}
use vnic.Port.Config.{Config, validate}
use vnic.Port.Configured.{IsConfigured, configure_impl-IsConfigured}
use vnic.Port.State.{Port}
use vnic.Port.Queues.{RxQueues, TxQueues}
use vnic.Port.Control.{Outcome, start_impl, configure_impl}
use vnic.Port.Calls.{Call, IsCall}
use vnic.Port.Round.{IsFrame}
use vnic.Port.Fresh.{none_held}
use vnic.Port.Leak.{session, Stopped, IsEmptied, session-Stopped}
use vnic.Port.Bringup.{Setup, set_up, IsSetUp, set_up-IsSetUp}
use vnic.Port.Launch.{Up, Unlaunched, start_impl-Up}

-- A cause may be one of several.
Up-mono :
    {Text : Type 0} (frames : List (List ℕ)) (P Q : Type 0) (h : Heap)
    (r : Port Text × Heap × Status)
    → (P → Q)
    → Up frames P h r
    → Up frames Q h r
Up-mono frames P Q h (port, h', ok u) f k = k
Up-mono frames P Q h (port, h', unexpected e) f (same, (idle, p)) = (same, (idle, f p))

-- What keeps a port from being brought up.
abbrev pub Unstarted :
    {Text : Type 0} → (Text → List ℕ) → (Text → Bool) → Config Text → Bool → Type 0
Unstarted scan_mac is_empty c spawns =
    (validate scan_mac is_empty c ≢ ErrorCode.none) ⊎ (spawns ≡ false) ⊎ (0 < c.tx_queue_count)

-- A configuration, the configurations of queues, and `startImpl`.
unfoldable pub bring_up :
    {Text : Type 0}
    → (Text → List ℕ)
    → (Text → Bool)
    → ℕ
    → Text
    → Config Text
    → List Setup
    → Bool
    → Port Text
    → Heap
    → Outcome Text
bring_up scan_mac is_empty fuel empty c setups spawns port h = do
  r ← configure_impl scan_mac is_empty fuel empty c port h
  elim r.2 [
    | unexpected e ↦ some (r.0, r.1, unexpected e)
    | ok u ↦ set_up setups r.0 r.1 >>= λ s. start_impl fuel spawns s.0 s.1
  ]

module _ {Text : Type 0} (scan_mac : Text → List ℕ) (is_empty : Text → Bool) (fuel : ℕ)
    (empty : Text) (c : Config Text) where
  configured-IsSetUp :
      (port port' : Port Text)
      → 0 < c.rx_queue_count
      → IsConfigured scan_mac is_empty c port port'
      → IsSetUp c port.link.rx_queue.queue port'
  configured-IsSetUp port port' n k = record {
    config = k.config;
    table = λ on. elim (k.table) [ inl (off, e) ↦ absurd (cc (on, off)) | inr (on', t, w) ↦ t ];
    some_queue = omega (arith, n, k.rx_count);
    rx =
        subst (All IsPrepared) (sym k.rx_new)
          (All-replicate IsPrepared c.rx_queue_count Rx.new_queue new_queue-IsPrepared);
    tx = k.tx_idle;
    tx_count = k.tx_count;
    waiting = k.link_frames;
  }

  pub bring_up-Up :
      (setups : List Setup) (spawns : Bool) (port : Port Text) (h : Heap)
      → 0 < c.rx_queue_count
      → All IsByte c.rss.key
      → All RxIdle.IsIdle port.rx_queues
      → Returns
          (Up port.link.rx_queue.queue (Unstarted scan_mac is_empty c spawns) h)
          (bring_up scan_mac is_empty fuel empty c setups spawns port h)
  unfolding bring_up
  bring_up-Up setups spawns port h n key idle =
      elim (configure_impl-IsConfigured scan_mac is_empty fuel empty c port h
        (All-mono RxIdle.IsIdle RxIdle.IsDrained (λ q i. i.0) port.rx_queues idle)) [
          | inr (bad, e) ↦ rw (bring_up, e) (refl, (idle, inl bad))
          | inl (good, (port', (e, k))) ↦
              rw (bring_up, e)
                (Returns->>= _
                  (Up port.link.rx_queue.queue (Unstarted scan_mac is_empty c spawns) h)
                  (set_up setups port' h) _
                  (set_up-IsSetUp c port.link.rx_queue.queue setups port' h
                    (configured-IsSetUp port port' n k))
                  (λ s t. rw (t.0) (
                    Returns-mono (Up port.link.rx_queue.queue (Unlaunched c spawns) h)
                      (Up port.link.rx_queue.queue (Unstarted scan_mac is_empty c spawns) h)
                      (start_impl fuel spawns s.0 h)
                      (start_impl-Up c port.link.rx_queue.queue key fuel spawns s.0 h t.1)
                      (λ r u.
                        Up-mono port.link.rx_queue.queue _ (Unstarted scan_mac is_empty c spawns) h
                          r inr u))))
        ]

-- A port's life: it is brought up; if that succeeds, a history follows, then the return of what the
-- application still holds, and `stopQueues`.
unfoldable pub lifetime :
    {Text : Type 0}
    → (Text → List ℕ)
    → (Text → Bool)
    → ℕ
    → Text
    → Config Text
    → List Setup
    → Bool
    → List Call
    → Port Text
    → Heap
    → Option (RxQueues × TxQueues × Heap × Status)
lifetime scan_mac is_empty fuel empty c setups spawns calls port h = do
  r ← bring_up scan_mac is_empty fuel empty c setups spawns port h
  elim r.2 [
    | unexpected e ↦ some (r.0.rx_queues, r.0.tx_queues, r.1, unexpected e)
    | ok u ↦ session fuel calls r.0 r.1 (none_held r.0.rx_queues)
  ]

-- The heap is `h0`, and no receive queue runs or has a packet.
abbrev pub Over : Heap → RxQueues × TxQueues × Heap × Status → Type 0
Over h0 (rx, tx, h, s) = (h ≡ h0) × All RxIdle.IsIdle rx

IsEmptied-Idle : (q : Machine RxQueue) → IsEmptied q → RxIdle.IsIdle q
IsEmptied-Idle q e = (e.1, ap RxIdle.is_started e.0)

module _ {Text : Type 0} (scan_mac : Text → List ℕ) (is_empty : Text → Bool) where
  -- Whatever configuration a port is given, in whatever order its queues are configured, and whatever
  -- follows once it runs - bytes that arrive, answers of the memory, packets that are taken and
  -- given back in any groups -: if it is refused or cannot be started, or once everything is given back
  -- and the queues are stopped, nothing undefined has happened, the heap is the one before the
  -- configuration, and no receive queue runs or has a packet. The configuration has a receive queue and
  -- its key consists of bytes; before it no receive queue runs or has a packet, and the link holds
  -- frames of bytes; the fuel covers 512 segments.
  pub lifetime-Over :
      (fuel : ℕ) (empty : Text) (c : Config Text) (setups : List Setup) (spawns : Bool)
      (calls : List Call) (port : Port Text) (h : Heap)
      → max_segments ≤ fuel
      → All IsCall calls
      → 0 < c.rx_queue_count
      → All IsByte c.rss.key
      → All RxIdle.IsIdle port.rx_queues
      → All IsFrame port.link.rx_queue.queue
      → Returns (Over h) (lifetime scan_mac is_empty fuel empty c setups spawns calls port h)
  unfolding lifetime
  lifetime-Over fuel empty c setups spawns calls port h f b n key idle frames =
      Returns->>= (Up port.link.rx_queue.queue (Unstarted scan_mac is_empty c spawns) h) (Over h)
        (bring_up scan_mac is_empty fuel empty c setups spawns port h) _
        (bring_up-Up scan_mac is_empty fuel empty c setups spawns port h n key idle) lived
    where
      lived :
          (r : Port Text × Heap × Status)
          → Up port.link.rx_queue.queue (Unstarted scan_mac is_empty c spawns) h r
          → Returns (Over h) (elim r.2 [
            | unexpected e ↦ some (r.0.rx_queues, r.0.tx_queues, r.1, unexpected e)
            | ok u ↦ session fuel calls r.0 r.1 (none_held r.0.rx_queues)
          ])
      lived (p, g, unexpected e) (same, (i, cause)) = (same, i)
      lived (p, g, ok u) (same, (serving, waiting, fresh)) = rw same (
          Returns-mono (Stopped h) (Over h) (session fuel calls p h (none_held p.rx_queues))
            (session-Stopped fuel calls p h f b serving (subst (All IsFrame) (sym waiting) frames)
              fresh)
            (λ t k. (k.0, All-mono IsEmptied RxIdle.IsIdle IsEmptied-Idle t.0 k.1)))
