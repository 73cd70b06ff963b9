-- ===== src/Port/Delivery.antt =====
-- `VNic::distribute` puts a frame into one of the receive queues, or drops it without a trace.
use vnic.Prelude.{
  All-get_elem?, ℕ, ◌^◌, ◌<◌, ◌≤◌, ◌≡◌, refl, arith, true, false, ◌&&◌, Bool-cases, inl, inr, List,
  some, ◌>>=◌, Returns, Returns->>=, length, get_elem?, set, All, ◌==◌,
}
use vnic.ErrorCode.{Status, ok, unexpected, done}
use vnic.Parser.State.{Parser}
use vnic.Packet.FiveTuple.{get_5tuple}
use vnic.Memory.Heap.{Heap, Malloc}
use vnic.Fifo.Laws.{IsBounded}
use vnic.Net.Bytes.{IsByte}
use vnic.Rss.Range.{IsHash, HasByteAddresses, calc_hash_range}
use vnic.RxQueue.Queue.{RxQueue, max_segments}
use vnic.RxQueue.Account.{put_few}
use vnic.RxQueue.Queue
use vnic.Rss.Hash.{calc_hash}
use vnic.RxQueue.PutDescriptor.{Stored, PutPost, segment_count}
use vnic.RxQueue.Put.{put-PutPost}
use vnic.Port.Table.{lookup}
use vnic.Port.State.{Port}
use vnic.Stateful.Automaton.{Machine}
use vnic.Port.Reta.{IsTable, lookup-IsTable}
use vnic.Port.Receive.{is_hashable, choose_queue, descriptor, settle, distribute}

-- A receive queue whose counter has not wrapped and whose free list is within its capacity.
abbrev pub IsReady : Machine RxQueue → Type 0
IsReady q = (q.object.pool.live < 2 ^ 64) × IsBounded q.object.free

-- A port with receive queues, each of them ready, a key of bytes and, with RSS on, a table that names
-- the queues.
pub record IsServing {ℓ} {Text : Type ℓ} (port : Port Text) : Type 0 where
  pub some_queue : 0 < length port.rx_queues
  pub table : port.config.rss.enabled ≡ true → IsTable (length port.rx_queues) port.reta
  pub ready : All IsReady port.rx_queues
  pub key : All IsByte port.config.rss.key

module _ {ℓ} {Text : Type ℓ} where
  -- What `distribute` leaves behind: one queue has stored the packet and the others are as they
  -- were, or the heap is as it was.
  abbrev pub Delivered : Port Text → Heap → List ℕ → Port Text × Heap × Status → Type 0
  Delivered port h packet (port', h', s) = elim s [
    | ok u ↦
        (i : ℕ) × (q : Machine RxQueue) × (q' : RxQueue) × (get_elem? port.rx_queues i ≡ some q)
        × (port'.rx_queues ≡ set port.rx_queues i (record q { object = q' }))
        × Stored q.object h packet (q', h')
    | unexpected e ↦ h' ≡ h
  ]

  choose_queue-IsServing :
      (p : Parser) (port : Port Text)
      → IsServing port
      → HasByteAddresses (get_5tuple p)
      → Returns (λ chosen. chosen.1 < length port.rx_queues) (choose_queue p port)
  unfolding choose_queue
  choose_queue-IsServing p port s b = elim (Bool-cases (port.config.rss.enabled && is_hashable p)) [
    | inr off ↦ rw off (s.some_queue)
    | inl on ↦
        let rss = port.config.rss in
        rw on (
          Returns->>= IsHash _ (calc_hash (get_5tuple p) rss.key rss.hf rss.protocol rss.symmetry) _
            (calc_hash_range (get_5tuple p) rss.key rss.hf rss.protocol rss.symmetry b s.key)
            (λ hash h.
              Returns->>= (λ k. k < length port.rx_queues) _ (lookup port.reta hash) _
                (lookup-IsTable port.reta (length port.rx_queues) hash (s.table (ground arith)))
                (λ k lt. lt)))
  ]

  settle-Delivered :
      (i bytes : ℕ) (port : Port Text) (packet : List ℕ) (q : Machine RxQueue) (h : Heap)
      (r : RxQueue × Heap × Status)
      → get_elem? port.rx_queues i ≡ some q
      → PutPost q.object h packet r
      → Delivered port h packet (settle i bytes port (record q { object = r.0 }) r.1 r.2)
  unfolding settle
  settle-Delivered i bytes port packet q h (q', h', ok u) e post = (i, q, q', e, refl, post)
  settle-Delivered i bytes port packet q h (q', h', unexpected c) e post = post.0

  -- Whatever holds of every way in which a ready queue can answer holds of `distribute`.
  pub distribute_by :
      (m : Malloc) (now : ℕ) (p : Parser) (packet : List ℕ) (port : Port Text) (h : Heap)
      (Q : Port Text × Heap × Status → Type 0)
      → IsServing port
      → HasByteAddresses (get_5tuple p)
      → ((i : ℕ) (q : Machine RxQueue) (r : RxQueue × Heap × Status)
          → get_elem? port.rx_queues i ≡ some q
          → IsReady q
          → PutPost q.object h packet r
          → (r.2 ≡ done → segment_count packet ≤ max_segments)
          → Q (settle i (length packet) port (record q { object = r.0 }) r.1 r.2))
      → Returns Q (distribute m now p packet port h)
  unfolding distribute
  distribute_by m now p packet port h Q s b each = rw some_queue (
      Returns->>= (λ chosen. chosen.1 < length port.rx_queues) _ (choose_queue p port) _
        (choose_queue-IsServing p port s b)
        (λ chosen inside.
          served chosen (All-get_elem? IsReady port.rx_queues chosen.1 s.ready inside)))
    where
      served :
          (chosen : ℕ × ℕ)
          → (q : Machine RxQueue) × (get_elem? port.rx_queues chosen.1 ≡ some q) × IsReady q
          → Returns Q (
              get_elem? port.rx_queues chosen.1 >>= λ q.
              Queue.put m (descriptor now p chosen) packet q.object h >>= λ r.
              some (settle chosen.1 (length packet) port (record q { object = r.0 }) r.1 r.2))
      served chosen (q, e, ready) = rw e (
          Returns->>= _ _ (Queue.put m (descriptor now p chosen) packet q.object h) _
            (put_few m (descriptor now p chosen) packet q.object h
              (put-PutPost m (descriptor now p chosen) packet q.object h ready.0 ready.1))
            (λ r post. each chosen.1 q r e ready post.0 post.1))

      some_queue : (length port.rx_queues == 0) ≡ false
      some_queue = ground (arith, s.some_queue)

  -- For a port in service, `distribute` of a frame is defined: the lookup stays inside the table, the
  -- queue that it names exists, and `put` has no undefined behaviour. If it succeeds, one receive queue
  -- has stored the frame, byte for byte, and the others are as they were; if it fails, the heap is as
  -- it was. The frame's IPv6 addresses, if it has any, are bytes.
  pub distribute-Delivered :
      (m : Malloc) (now : ℕ) (p : Parser) (packet : List ℕ) (port : Port Text) (h : Heap)
      → IsServing port
      → HasByteAddresses (get_5tuple p)
      → Returns (Delivered port h packet) (distribute m now p packet port h)
  distribute-Delivered m now p packet port h s b =
      distribute_by m now p packet port h (Delivered port h packet) s b
        (λ i q r e ready post few. settle-Delivered i (length packet) port packet q h r e post)
