-- ===== src/Port/Fate.antt =====
-- What becomes of a frame in a round of `VNic::poll`, and which counter tells.
use vnic.Prelude.{
  ℕ, ◌≡◌, ◌≤◌, refl, arith, List, some, length, get_elem?, set, Returns, length-set, All-set,
}
use vnic.ErrorCode.{Status, ok, unexpected, done}
use vnic.Stats.{Stats, fetch_errors, fetch_processed_packets, fetch_processed_bytes}
use vnic.Parser.State.{Parser}
use vnic.Packet.FiveTuple.{get_5tuple}
use vnic.Memory.Heap.{Heap, Malloc}
use vnic.Stateful.Automaton.{Machine}
use vnic.Rss.Range.{HasByteAddresses}
use vnic.RxQueue.Queue.{RxQueue, max_segments}
use vnic.RxQueue.PutDescriptor.{Stored, Restored, PutPost, segment_count}
use vnic.Port.State.{Port}
use vnic.Port.Receive.{settle, distribute, count_dropped}
use vnic.Port.Delivery.{IsReady, IsServing, distribute_by}

-- What becomes of a frame that the loop takes from the link.
pub data Fate : Type 0 where
  rejected dropped processed : Fate

-- How each of them is counted.
abbrev pub account : Fate → ℕ → Stats → Stats
account Fate.rejected n s = count_dropped n (fetch_errors 1 s)
account Fate.dropped n s = count_dropped n s
account Fate.processed n s = fetch_processed_bytes n (fetch_processed_packets 1 s)

-- A queue is ready after a `put`, whatever the answer.
PutPost-IsReady :
    (q : Machine RxQueue) (h : Heap) (packet : List ℕ) (r : RxQueue × Heap × Status)
    → IsReady q
    → PutPost q.object h packet r
    → IsReady (record q { object = r.0 })
PutPost-IsReady q h packet (q', h', ok u) ready (ps, desc, o, c, total, u', l, cfg, live, n) =
    (ground (arith, live), ground (arith, ready, l, cfg))
PutPost-IsReady q h packet (q', h', unexpected e) ready (e', live, used, l, cfg) =
    (ground (arith, live, ready), ground (arith, ready, l, cfg))

module _ {ℓ} {Text : Type ℓ} where
  -- What `distribute`, and a round after the frame has been taken, leave behind: the frame's fate, the
  -- counters, a port that still serves, and one queue that has stored a frame that was processed, or
  -- that has refused one that was dropped; otherwise the heap and the queues as they were.
  abbrev pub Accounted : List ℕ → Port Text → Heap → Port Text × Heap → Type 0
  Accounted frame port h (port', h') =
      (fate : Fate) × (port'.stats ≡ account fate (length frame) port.stats)
      × (port'.link ≡ port.link)
      × (port'.reta ≡ port.reta)
      × (port'.tx_queues ≡ port.tx_queues)
      × (length port'.rx_queues ≡ length port.rx_queues)
      × IsServing port'
      × (elim fate [
        | Fate.processed ↦
            (i : ℕ) × (q : Machine RxQueue) × (q' : RxQueue) × (get_elem? port.rx_queues i ≡ some q)
            × (port'.rx_queues ≡ set port.rx_queues i (record q { object = q' }))
            × Stored q.object h frame (q', h')
            × (segment_count frame ≤ max_segments)
        | Fate.dropped ↦
            (i : ℕ) × (q : Machine RxQueue) × (q' : RxQueue) × (get_elem? port.rx_queues i ≡ some q)
            × (port'.rx_queues ≡ set port.rx_queues i (record q { object = q' }))
            × Restored q.object h (q', h')
        | Fate.rejected ↦ (h' ≡ h) × (port'.rx_queues ≡ port.rx_queues)
      ])

  settle-IsServing :
      (i bytes : ℕ) (port : Port Text) (q : Machine RxQueue) (h : Heap) (s : Status)
      → IsServing port
      → IsReady q
      → IsServing (settle i bytes port q h s).0
  unfolding settle
  settle-IsServing i bytes port q h (ok u) serving ready = record {
    some_queue = omega (arith, serving.some_queue, length-set port.rx_queues i q);
    table = λ on. rw (length-set port.rx_queues i q) (serving.table on);
    ready = All-set IsReady port.rx_queues i q serving.ready ready;
    key = serving.key;
  }
  settle-IsServing i bytes port q h (unexpected e) serving ready = record {
    some_queue = omega (arith, serving.some_queue, length-set port.rx_queues i q);
    table = λ on. rw (length-set port.rx_queues i q) (serving.table on);
    ready = All-set IsReady port.rx_queues i q serving.ready ready;
    key = serving.key;
  }

  settle-Accounted :
      (frame : List ℕ) (port : Port Text) (h : Heap) (i : ℕ) (q : Machine RxQueue)
      (r : RxQueue × Heap × Status)
      → IsServing port
      → get_elem? port.rx_queues i ≡ some q
      → IsReady q
      → PutPost q.object h frame r
      → (r.2 ≡ done → segment_count frame ≤ max_segments)
      → let t = settle i (length frame) port (record q { object = r.0 }) r.1 r.2 in
        Accounted frame port h (t.0, t.1)
  unfolding settle
  settle-Accounted frame port h i q (q', h', ok u) serving e ready post few = (
    Fate.processed,
    refl,
    refl,
    refl,
    refl,
    length-set port.rx_queues i _,
    settle-IsServing i (length frame) port _ h' (ok u) serving
        (PutPost-IsReady q h frame (q', h', ok u) ready post),
    (i, q, q', e, refl, post, few refl),
  )
  settle-Accounted frame port h i q (q', h', unexpected c) serving e ready post few = (
    Fate.dropped,
    refl,
    refl,
    refl,
    refl,
    length-set port.rx_queues i _,
    settle-IsServing i (length frame) port _ h' (unexpected c) serving
        (PutPost-IsReady q h frame (q', h', unexpected c) ready post),
    (i, q, q', e, refl, post),
  )

  pub distribute-Accounted :
      (m : Malloc) (now : ℕ) (p : Parser) (frame : List ℕ) (port : Port Text) (h : Heap)
      → IsServing port
      → HasByteAddresses (get_5tuple p)
      → Returns (λ r. Accounted frame port h (r.0, r.1)) (distribute m now p frame port h)
  distribute-Accounted m now p frame port h serving b =
      distribute_by m now p frame port h (λ r. Accounted frame port h (r.0, r.1)) serving b
        (λ i q r e ready post few. settle-Accounted frame port h i q r serving e ready post few)
