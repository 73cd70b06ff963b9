-- ===== src/TxQueue/Transmit.antt =====
-- `TxQueue::put` hands the packet that a chain holds to the link, byte for byte.
use vnic.Prelude.{
  ℕ, zero, suc, ◌+◌, ◌^◌, ◌≤◌, ◌<◌, ◌≡◌, refl, sym, ◌∙◌, ap, arith, Bool, true, false, List, [],
  ◌∷◌, ◌++◌, ltb, Option, some, Returns, ◌==◌, length, length-append, take_all,
}
use mathlib.Core.List.{append-nil}
use vnic.ErrorCode.{ErrorCode, value, eqb, Status, done}
use vnic.Stats.{fetch_processed_packets, fetch_processed_bytes}
use vnic.Net.Bytes.{read_bytes_inside}
use vnic.Packet.Descriptor.{PacketDescriptor}
use vnic.Memory.Heap.{Heap}
use vnic.Memory.Chain.{Holds}
use vnic.Fifo.Queue.{enqueue, push, is_full}
use vnic.Link.Pipe.{Link, allocate, put_tx}
use vnic.Link.Pipe
use vnic.RxQueue.Queue.{max_segments}
use vnic.TxQueue.Queue.{TxQueue, measure, gather, dropped, transmit, put_chain, put}

measure-Holds :
    (ps : List ℕ) (room total p : ℕ) (ptr : Option ℕ) (bytes : List ℕ) (h : Heap)
    → Holds h (p ∷ ps) ptr bytes
    → length ps < room
    → total + length bytes < 2 ^ 64
    → measure room total p h ≡ some (some (total + length bytes))
unfolding measure
measure-Holds ps zero total p ptr bytes h c f s = absurd (omega arith)
measure-Holds [] (suc room) total p ptr bytes h (at', (b, rest, e, l, d, (end, nil))) f s =
    rw (e, end, l) (ap (λ n. some (some n)) (omega (arith, sum)))
  where
    sum : length bytes ≡ length b.payload
    sum = ap length d ∙ length-append b.payload rest ∙ omega (arith, ap length nil)
measure-Holds (p' ∷ ps) (suc room) total p ptr bytes h (at', (b, rest, e, l, d, c)) f s =
    rw (e, c.0, l)
      (measure-Holds ps room _ p' b.next rest h c (omega arith) (omega (arith, sum))
        ∙ ap (λ n. some (some n)) (omega (arith, sum)))
  where
    sum : length bytes ≡ length b.payload + length rest
    sum = ap length d ∙ length-append b.payload rest

gather-Holds :
    (ps : List ℕ) (room p : ℕ) (ptr : Option ℕ) (bytes : List ℕ) (h : Heap)
    → Holds h (p ∷ ps) ptr bytes
    → length ps < room
    → gather room p h ≡ some bytes
unfolding gather
gather-Holds ps zero p ptr bytes h c f = absurd (omega arith)
gather-Holds [] (suc room) p ptr bytes h (at', (b, rest, e, l, d, (end, nil))) f =
    rw (e, l, read_bytes_inside b.payload 0 (length b.payload) (omega arith), end)
      (ap some
        (take_all b.payload ∙ sym (append-nil b.payload) ∙ ap (◌++◌ b.payload) (sym nil) ∙ sym d))
gather-Holds (p' ∷ ps) (suc room) p ptr bytes h (at', (b, rest, e, l, d, c)) f =
    rw
      (
        e,
        l,
        read_bytes_inside b.payload 0 (length b.payload) (omega arith),
        c.0,
        gather-Holds ps room p' b.next rest h c (omega arith),
      )
      (ap some (ap (λ k. k ++ rest) (take_all b.payload) ∙ sym d))

-- What a transmission leaves behind: the frame at the end of the pipe.
abbrev pub Sent : Link → List ℕ → TxQueue × Link × Status → Type 0
Sent link packet (q', link', s) =
    (s ≡ done) × (link'.tx_queue.queue ≡ link.tx_queue.queue ++ packet ∷ [])

module _ (memory : ℕ → Bool) (desc : PacketDescriptor) (packet : List ℕ) (q : TxQueue)
    (link : Link) where
  pub transmit_room :
      q.linked ≡ true
      → 0 < length packet
      → memory (length packet) ≡ true
      → is_full link.tx_queue ≡ false
      → transmit memory desc packet q link
        ≡ some (
          record q {
            stats = fetch_processed_bytes desc.total_length (fetch_processed_packets 1 q.stats);
          },
          record link { tx_queue = enqueue packet link.tx_queue },
          done,
        )
  unfolding transmit put_tx vnic.Link.Pipe.put allocate push
  transmit_room linked n m room = ground arith

  pub transmit_full :
      q.linked ≡ true
      → 0 < length packet
      → memory (length packet) ≡ true
      → is_full link.tx_queue ≡ true
      → transmit memory desc packet q link ≡ dropped desc ErrorCode.link_tx_queue_full q link
  unfolding transmit put_tx vnic.Link.Pipe.put allocate push dropped eqb value
  transmit_full linked n m full = ground arith

-- A descriptor of a packet: a chain of at most 512 blocks that holds it, of the length that the
-- descriptor tells.
abbrev pub Describes : Heap → PacketDescriptor → List ℕ → Type 0
Describes h desc packet =
    (ps : List ℕ) × Holds h ps desc.buffer packet
    × (length ps ≤ max_segments)
    × (desc.total_length ≡ length packet)
    × (0 < length packet)
    × (length packet < 2 ^ 32)

-- For such a descriptor `put` comes to the end of the chain and hands the packet to the link.
pub put-transmit :
    (resizes memory : ℕ → Bool) (desc : PacketDescriptor) (packet : List ℕ) (q : TxQueue)
    (link : Link) (h : Heap)
    → Describes h desc packet
    → resizes (length packet) ≡ true
    → put resizes memory desc q link h ≡ transmit memory desc packet q link
unfolding put put_chain
put-transmit resizes memory desc packet q link h ([], c, f, t, n, s) r =
    absurd (omega (arith, ap length (c.1)))
put-transmit resizes memory desc packet q link h (p ∷ ps, c, f, t, n, s) r =
    rw
      (
        c.0,
        measure-Holds ps max_segments 0 p desc.buffer packet h c (omega arith) (omega arith),
        total,
        resized,
        gather-Holds ps max_segments p desc.buffer packet h c (omega arith),
        inside,
      )
      (ap (λ b. transmit memory (record desc { buffer = b }) packet q link) (sym c.0))
  where
    total : (0 + length packet == desc.total_length) ≡ true
    total = ground arith

    inside : ltb (0 + length packet) (length packet) ≡ false
    inside = ground arith

    resized : resizes (0 + length packet) ≡ true
    resized = ap resizes {x = 0 + length packet} (omega arith) ∙ r

-- A chain of at most 512 blocks that holds a packet, with the length that the descriptor tells, is
-- transmitted: the call is defined and succeeds, and the last frame of the link's outbound pipe is the
-- packet, byte for byte. The packet is not empty, the queue has a link whose pipe has room, and the
-- two allocations of memory for the packet succeed.
pub put-Holds :
    (resizes memory : ℕ → Bool) (desc : PacketDescriptor) (ps packet : List ℕ) (q : TxQueue)
    (link : Link) (h : Heap)
    → Holds h ps desc.buffer packet
    → length ps ≤ max_segments
    → desc.total_length ≡ length packet
    → 0 < length packet
    → length packet < 2 ^ 32
    → resizes (length packet) ≡ true
    → memory (length packet) ≡ true
    → q.linked ≡ true
    → is_full link.tx_queue ≡ false
    → Returns (Sent link packet) (put resizes memory desc q link h)
put-Holds resizes memory desc ps packet q link h c f t n s r m l room =
    rw
      (
        put-transmit resizes memory desc packet q link h (ps, c, f, t, n, s) r,
        transmit_room memory desc packet q link l n m room,
      )
      (refl, refl)
