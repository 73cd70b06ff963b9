-- ===== src/Port/Transmission.antt =====
-- What `tx` sends of a burst.
use vnic.Prelude.{
  ℕ, suc, ◌+◌, ◌%◌, ◌^◌, ◌<◌, ◌≡◌, refl, ◌∙◌, ap, sym, arith, Bool, true, false, Bool-cases, inl,
  inr, List, [], ◌∷◌, ◌++◌, some, length, take, map, not, ◌&&◌, leb, get_elem?, get_elem?_lt, All,
  Returns, Returns->>=, ◌==◌, if◌then◌else◌,
}
use mathlib.Core.List.{append_assoc, append-nil}
use vnic.ErrorCode.{ErrorCode, value, eqb, Expected, ok, unexpected}
use vnic.Stats.{Stats}
use vnic.Packet.Descriptor.{PacketDescriptor}
use vnic.Memory.Heap.{Heap}
use vnic.Fifo.Queue.{enqueue, is_full}
use vnic.Fifo.Laws.{room, room-nil, room_full, room_open}
use vnic.Link.Pipe.{Link}
use vnic.TxQueue.Queue.{TxQueue, dropped}
use vnic.TxQueue.Transmit.{Describes, put-transmit, transmit_room, transmit_full}
use vnic.Stateful.Automaton.{Machine}
use vnic.Port.State.{Port}
use vnic.Port.Burst.{tx_loop, tx, count_sent, count_unsent}
use vnic.Stats.{fetch_dropped_packets, fetch_dropped_bytes}

-- A burst: the descriptors with the packets that they describe.
abbrev pub Burst : Type 0
Burst = List (PacketDescriptor × List ℕ)

abbrev pub descriptors : Burst → List PacketDescriptor
descriptors burst = map (λ item. item.0) burst

abbrev pub packets : Burst → List (List ℕ)
packets burst = map (λ item. item.1) burst

abbrev pub IsBurst : Heap → Burst → Type 0
IsBurst h burst = All (λ item. Describes h item.0 item.1) burst

-- What the loop leaves behind: the packets that fit are at the end of the pipe, in order; the loop
-- has stopped at the first that does not fit.
abbrev pub LoopPost : Link → Stats → Burst → TxQueue × Link × Stats × ℕ × ErrorCode → Type 0
LoopPost link stats burst (q', link', stats', transmitted, error) =
    let n = room link.tx_queue (length burst) in
    (q'.linked ≡ true)
    × (transmitted ≡ n)
    × (link'.tx_queue.queue ≡ link.tx_queue.queue ++ take n (packets burst))
    × (link'.rx_queue ≡ link.rx_queue)
    × (error ≡ (if n == length burst then ErrorCode.none else ErrorCode.link_tx_queue_full))
    × (stats'.transmitted_packets ≡ (stats.transmitted_packets + n) % 2 ^ 64)

zero-suc : (n : ℕ) → (0 == suc n) ≡ false
zero-suc n = ground arith

suc-suc : (a b : ℕ) → (suc a == suc b) ≡ (a == b)
suc-suc a b = ground arith

abbrev count_lost : ℕ → Stats → Stats
count_lost bytes s = fetch_dropped_bytes bytes (fetch_dropped_packets 1 s)

module _ (resizes memory : ℕ → Bool) (resizable : (size : ℕ) → resizes size ≡ true)
    (available : (size : ℕ) → memory size ≡ true) where
  tx_loop_lem :
      (burst : Burst) (q : TxQueue) (link : Link) (stats : Stats) (h : Heap)
      → IsBurst h burst
      → q.linked ≡ true
      → stats.transmitted_packets < 2 ^ 64
      → Returns
          (LoopPost link stats burst)
          (tx_loop resizes memory (descriptors burst) q link stats h)
  unfolding tx_loop dropped
  tx_loop_lem [] q link stats h b linked small =
      ground (arith, room-nil link.tx_queue, append-nil link.tx_queue.queue, linked)
  tx_loop_lem ((desc, packet) ∷ burst) q link stats h b linked small =
      elim (Bool-cases (is_full link.tx_queue)) [
        | inl full ↦
            rw
              (
                put-transmit resizes memory desc packet q link h b.0 (resizable (length packet)),
                transmit_full memory desc packet q link linked (b.0.4) (available (length packet))
                    full,
              )
              (unfitting full)
        | inr open' ↦
            rw
              (
                put-transmit resizes memory desc packet q link h b.0 (resizable (length packet)),
                transmit_room memory desc packet q link linked (b.0.4) (available (length packet))
                    open',
              )
              (Returns->>= (LoopPost (sent) (count_sent desc.total_length stats) burst) _
                (tx_loop resizes memory (descriptors burst) _ sent
                  (count_sent desc.total_length stats) h)
                _
                (tx_loop_lem burst _ sent (count_sent desc.total_length stats) h b.1 linked
                  (omega arith))
                (λ r post. fitting open' r post))
      ]
    where
      whole : Burst
      whole = (desc, packet) ∷ burst

      sent : Link
      sent = record link { tx_queue = enqueue packet link.tx_queue }

      unfitting :
          is_full link.tx_queue ≡ true
          → LoopPost link stats whole (
            record q { stats = count_lost desc.total_length q.stats },
            link,
            count_unsent desc.total_length stats,
            0,
            ErrorCode.link_tx_queue_full,
          )
      unfitting full =
          rw (room_full link.tx_queue (length whole) full, zero-suc (length burst))
            (linked, refl, sym (append-nil link.tx_queue.queue), refl, refl, omega arith)

      fitting :
          is_full link.tx_queue ≡ false
          → (r : TxQueue × Link × Stats × ℕ × ErrorCode)
          → LoopPost sent (count_sent desc.total_length stats) burst r
          → LoopPost link stats whole (r.0, r.1, r.2, suc r.3, r.4)
      fitting open' r post =
          rw
            (
              room_open packet link.tx_queue (length burst) open',
              suc-suc (room sent.tx_queue (length burst)) (length burst),
            )
            (
              post.0,
              ap suc post.1,
              post.2
                  ∙ append_assoc link.tx_queue.queue (packet ∷ [])
                      (take (room sent.tx_queue (length burst)) (packets burst)),
              post.3,
              post.4,
              omega (arith, post.5),
            )

-- What `tx` answers when `n` of `total` packets fit.
abbrev pub answer : ℕ → ℕ → Expected ℕ
answer n total =
    if n == 0 && not (total == 0) then unexpected ErrorCode.link_tx_queue_full else ok n

answer_lem :
    (n total : ℕ)
    → let error = if n == total then ErrorCode.none else ErrorCode.link_tx_queue_full in
      (if n == 0 && not (eqb error ErrorCode.none) then unexpected error else ok n) ≡ answer n total
unfolding eqb value
answer_lem n total = ground arith

module _ {ℓ} {Text : Type ℓ} where
  -- What `tx` leaves behind.
  abbrev pub Transmitted : Port Text → Burst → Port Text × Expected ℕ → Type 0
  Transmitted port burst (port', r) =
      let n = room port.link.tx_queue (length burst) in
      (r ≡ answer n (length burst))
      × (port'.link.tx_queue.queue ≡ port.link.tx_queue.queue ++ take n (packets burst))
      × (port'.link.rx_queue ≡ port.link.rx_queue)
      × (port'.stats.transmitted_packets ≡ (port.stats.transmitted_packets + n) % 2 ^ 64)

  -- `tx` of a burst whose descriptors hold packets, on a configured queue: as many packets as the
  -- link's outbound pipe has room for are appended to it, in order and byte for byte, and are counted;
  -- transmission stops at the first packet that does not fit. The answer is their number, and the
  -- error `LinkTxQueueFull` only if there were packets and none was sent. The allocations of memory
  -- succeed, and the counter of the port has not wrapped.
  pub tx-take :
      (resizes memory : ℕ → Bool) (queue_id : ℕ) (burst : Burst) (port : Port Text) (h : Heap)
      (q : Machine TxQueue)
      → ((size : ℕ) → resizes size ≡ true)
      → ((size : ℕ) → memory size ≡ true)
      → get_elem? port.tx_queues queue_id ≡ some q
      → q.object.linked ≡ true
      → IsBurst h burst
      → port.stats.transmitted_packets < 2 ^ 64
      → Returns (Transmitted port burst) (tx resizes memory queue_id (descriptors burst) port h)
  unfolding tx
  tx-take resizes memory queue_id burst port h q resizable available e linked b small =
      rw (tx, inside, e)
        (Returns->>= (LoopPost port.link port.stats burst) _
          (tx_loop resizes memory (descriptors burst) q.object port.link port.stats h) _
          (tx_loop_lem resizes memory resizable available burst q.object port.link port.stats h b
            linked small)
          (λ r post. (
            rw (post.1, post.4)
                (answer_lem (room port.link.tx_queue (length burst)) (length burst)),
            post.2,
            post.3,
            post.5,
          )))
    where
      inside : leb (length port.tx_queues) queue_id ≡ false
      inside = ground (arith, get_elem?_lt port.tx_queues queue_id q e)
