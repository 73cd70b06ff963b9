-- ===== src/Port/Burst.antt =====
-- The application's side of the data path: `tx`, `rx` and `freeRx`.
use vnic.Prelude.{
  ℕ, suc, Bool, not, ◌&&◌, List, [], ◌∷◌, Option, some, ◌>>=◌, length, get_elem?, set, leb, ◌==◌,
  if◌then◌else◌,
}
use vnic.ErrorCode.{ErrorCode, eqb, Expected, Status, ok, unexpected}
use vnic.Stats.{
  Stats, fetch_transmitted_packets, fetch_transmitted_bytes, fetch_tx_dropped_packets,
  fetch_tx_dropped_bytes,
}
use vnic.Packet.Descriptor.{PacketDescriptor}
use vnic.Memory.Heap.{Heap}
use vnic.Link.Pipe.{Link}
use vnic.RxQueue.Queue
use vnic.TxQueue.Queue.{TxQueue}
use vnic.TxQueue.Queue as TxQueue
use vnic.Port.State.{Port}

-- The counters of a packet that is sent, and of one that is not.
abbrev pub count_sent : ℕ → Stats → Stats
count_sent bytes s = fetch_transmitted_bytes bytes (fetch_transmitted_packets 1 s)

abbrev pub count_unsent : ℕ → Stats → Stats
count_unsent bytes s = fetch_tx_dropped_bytes bytes (fetch_tx_dropped_packets 1 s)

-- The loop of `tx`: the queue, the link, the port's counters, how many were `transmitted`, and the
-- `error`. `resizes` and `memory` are whether the allocations of a size succeed.
unfoldable pub tx_loop :
    (ℕ → Bool)
    → (ℕ → Bool)
    → List PacketDescriptor
    → TxQueue
    → Link
    → Stats
    → Heap
    → Option (TxQueue × Link × Stats × ℕ × ErrorCode)
tx_loop resizes memory [] q link stats h = some (q, link, stats, 0, ErrorCode.none)
tx_loop resizes memory (desc ∷ descs) q link stats h = do
  r ← TxQueue.put resizes memory desc q link h
  elim r.2 [
    | unexpected e ↦ some (r.0, r.1, count_unsent desc.total_length stats, 0, e)
    | ok u ↦ do
      s ← tx_loop resizes memory descs r.0 r.1 (count_sent desc.total_length stats) h
      some (s.0, s.1, s.2, suc s.3, s.4)
  ]

module _ {ℓ} {Text : Type ℓ} where
  -- `tx`; `none` is undefined behaviour of `TxQueue::put`.
  unfoldable pub tx :
      (ℕ → Bool)
      → (ℕ → Bool)
      → ℕ
      → List PacketDescriptor
      → Port Text
      → Heap
      → Option (Port Text × Expected ℕ)
  tx resizes memory queue_id descs port h =
      if leb (length port.tx_queues) queue_id
      then some (port, unexpected ErrorCode.queue_invalid_id)
      else do
        q ← get_elem? port.tx_queues queue_id
        r ← tx_loop resizes memory descs q.object port.link port.stats h
        some (
          record port {
            tx_queues = set port.tx_queues queue_id (record q { object = r.0 });
            link = r.1;
            stats = r.2;
          },
          if r.3 == 0 && not (eqb r.4 ErrorCode.none) then unexpected r.4 else ok r.3,
        )

  -- `rx`: the descriptors that are appended to the caller's vector, and the answer.
  unfoldable pub rx : ℕ → Port Text → Option (Port Text × List PacketDescriptor × Expected ℕ)
  rx queue_id port =
      if leb (length port.rx_queues) queue_id
      then some (port, [], unexpected ErrorCode.queue_invalid_id)
      else do
        q ← get_elem? port.rx_queues queue_id
        let taken = Queue.take q.object
        some (
          record port { rx_queues = set port.rx_queues queue_id (record q { object = taken.0 }) },
          taken.1,
          ok (length taken.1),
        )

  -- `freeRx`; `fuel` bounds the length of each chain.
  unfoldable pub free_rx :
      ℕ → ℕ → List PacketDescriptor → Port Text → Heap → Option (Port Text × Heap × Status)
  free_rx fuel queue_id descs port h =
      if leb (length port.rx_queues) queue_id
      then some (port, h, unexpected ErrorCode.queue_invalid_id)
      else do
        q ← get_elem? port.rx_queues queue_id
        r ← Queue.free fuel descs q.object h
        some (
          record port { rx_queues = set port.rx_queues queue_id (record q { object = r.0 }) },
          r.1,
          r.2,
        )
