-- ===== src/TxQueue/Tests.antt =====
-- A packet of two segments.
use vnic.Prelude.{ℕ, refl, Bool, true, [], ◌∷◌, none, some, Returns, arith}
use vnic.Stats.{zero_stats}
use vnic.Packet.Descriptor.{PacketDescriptor, empty_descriptor}
use vnic.Memory.Heap.{Heap, PacketBuffer, update}
use vnic.Fifo.Queue.{empty_fifo, is_full}
use vnic.Link.Pipe.{Link, AllocatorConfig}
use vnic.TxQueue.Queue.{TxQueue, put}
use vnic.TxQueue.Transmit.{Sent, put-Holds}

abbrev first_segment : PacketBuffer
first_segment = record { next = some 9; length = 2; payload = 1 ∷ 2 ∷ []; size = 2064 }

abbrev second_segment : PacketBuffer
second_segment = record { next = none; length = 1; payload = 3 ∷ []; size = 2064 }

abbrev heap : Heap
heap = update 4 (some first_segment) (update 9 (some second_segment) (λ p. none))

abbrev hints : AllocatorConfig
hints = record { block_size = 0; capacity = 0; socket_id = 0 }

abbrev new_link : Link
new_link = record {
  rx_queue = empty_fifo;
  tx_queue = empty_fifo;
  rx_allocator = hints;
  tx_allocator = hints;
  config = record {
    rx_queue_depth = 256;
    tx_queue_depth = 256;
    rx_frame_size = 4096;
    tx_frame_size = 4096;
  };
  is_up = true;
}

abbrev descriptor : PacketDescriptor
descriptor = record empty_descriptor { total_length = 3; buffer = some 4 }

abbrev queue : TxQueue
queue = record { linked = true; stats = zero_stats }

abbrev plenty : ℕ → Bool
plenty size = true

put-Holds_example :
    Returns (Sent new_link (1 ∷ 2 ∷ 3 ∷ [])) (put plenty plenty descriptor queue new_link heap)
unfolding is_full
put-Holds_example =
    put-Holds plenty plenty descriptor (4 ∷ 9 ∷ []) (1 ∷ 2 ∷ 3 ∷ []) queue new_link heap
      (
        refl,
        (
          first_segment,
          3 ∷ [],
          refl,
          refl,
          refl,
          (refl, (second_segment, [], refl, refl, refl, (refl, refl))),
        ),
      )
      (omega arith) refl (omega arith) (omega arith) refl refl refl refl
