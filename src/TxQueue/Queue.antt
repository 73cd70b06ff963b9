-- ===== src/TxQueue/Queue.antt =====
-- `class TxQueue`. `none` is a read through a dangling pointer or outside a payload.
use vnic.Prelude.{
  ℕ, zero, suc, ◌+◌, ◌%◌, ◌^◌, Bool, true, not, List, ◌++◌, Option, none, some, ◌>>=◌, ◌==◌, ltb,
  length, if◌then◌else◌,
}
use vnic.ErrorCode.{ErrorCode, eqb, Status, ok, unexpected, done}
use vnic.Net.Bytes.{read_bytes}
use vnic.Stats.{
  Stats, fetch_processed_packets, fetch_processed_bytes, fetch_dropped_packets, fetch_dropped_bytes,
}
use vnic.Packet.Descriptor.{PacketDescriptor}
use vnic.Memory.Heap.{Heap}
use vnic.Link.Pipe.{Link, put_tx}
use vnic.RxQueue.Queue.{max_segments}

-- The members, less the empty configuration; `linked` is whether `link_` is set.
pub record TxQueue : Type 0 where
  pub linked : Bool
  pub stats : Stats

-- A call's result: the queue, the link and what is returned.
abbrev pub Outcome : Type 0
Outcome = Option (TxQueue × Link × Status)

-- The loop that adds the lengths of the segments, with `room` more before the limit; the inner
-- `none` is the limit.
unfoldable pub measure : ℕ → ℕ → ℕ → Heap → Option (Option ℕ)
measure zero total p h = some none
measure (suc room) total p h = do
  b ← h p
  elim b.next [
    | none ↦ some (some ((total + b.length) % 2 ^ 64))
    | some p' ↦ measure room ((total + b.length) % 2 ^ 64) p' h
  ]

-- The loop that copies the payloads; it runs only on a chain that `measure` has come to the end of.
unfoldable pub gather : ℕ → ℕ → Heap → Option (List ℕ)
gather zero p h = none
gather (suc room) p h = do
  b ← h p
  bytes ← read_bytes b.payload 0 b.length
  elim b.next [ none ↦ some bytes | some p' ↦ gather room p' h >>= λ rest. some (bytes ++ rest) ]

-- An error return: the packet is counted as dropped.
unfoldable pub dropped : PacketDescriptor → ErrorCode → TxQueue → Link → Outcome
dropped desc e q link = some (
  record q { stats = fetch_dropped_bytes desc.total_length (fetch_dropped_packets 1 q.stats) },
  link,
  unexpected e,
)

-- `put` from the test of `link_` on.
unfoldable pub transmit : (ℕ → Bool) → PacketDescriptor → List ℕ → TxQueue → Link → Outcome
unfolding dropped
transmit memory desc packet q link =
    let (link1, pushed) = put_tx memory packet link in
    if not q.linked then dropped desc ErrorCode.tx_link_unavailable q link else elim pushed [
      | unexpected e ↦
          dropped desc (if eqb e ErrorCode.none then ErrorCode.tx_link_rejected else e) q link1
      | ok u ↦ some (
        record q {
          stats = fetch_processed_bytes desc.total_length (fetch_processed_packets 1 q.stats);
        },
        link1,
        done,
      )
    ]

-- `put` from the first loop on. `resizes` is whether the vector for the packet, of `total` bytes, gets
-- its memory; `none` is also a copy past its end.
unfoldable pub put_chain :
    (ℕ → Bool) → (ℕ → Bool) → PacketDescriptor → ℕ → TxQueue → Link → Heap → Outcome
unfolding dropped transmit
put_chain resizes memory desc p q link h = do
  measured ← measure max_segments 0 p h
  elim measured [
    | none ↦ dropped desc ErrorCode.tx_segment_limit_exceeded q link
    | some total ↦
        if not (total == desc.total_length)
        then dropped desc ErrorCode.tx_length_mismatch q link
        else if not (resizes total)
        then dropped desc ErrorCode.tx_allocation_failed q link
        else (gather max_segments p h >>= λ packet.
            if ltb total (length packet) then none else transmit memory desc packet q link)
  ]

-- `TxQueue::put`
unfoldable pub put : (ℕ → Bool) → (ℕ → Bool) → PacketDescriptor → TxQueue → Link → Heap → Outcome
unfolding dropped put_chain
put resizes memory desc q link h = elim desc.buffer [
  | none ↦ dropped desc ErrorCode.tx_descriptor_null q link
  | some p ↦ put_chain resizes memory desc p q link h
]

-- `configureImpl`
unfoldable pub configure_impl : TxQueue → TxQueue × Status
configure_impl q = (record q { linked = true }, done)
