-- ===== src/Link/Tests.antt =====
-- Two frames that follow one that waits, in a pipe of three.
use vnic.Prelude.{ℕ, ◌≡◌, refl, arith, Bool, true, List, [], ◌∷◌, some}
use vnic.ErrorCode.{done}
use vnic.Fifo.Queue.{Fifo}
use vnic.Link.Pipe.{Link, default_config, AllocatorConfig}
use vnic.Link.Drain.{destroy, emptied, destroy_lem}
use vnic.Link.Order.{holding, put_frames, take_frames, put_frames-take_frames}

abbrev memory : AllocatorConfig
memory = record { block_size = 4096; capacity = 3; socket_id = 0 }

abbrev pipe : List (List ℕ) → Fifo (List ℕ)
pipe frames = record { queue = frames; config = record { capacity = 3; socket_id = 0 } }

abbrev link : Link
link = record {
  rx_queue = pipe ((1 ∷ 2 ∷ []) ∷ []);
  tx_queue = pipe [];
  rx_allocator = memory;
  tx_allocator = memory;
  config = default_config;
  is_up = true;
}

abbrev plenty : ℕ → Bool
plenty size = true

put_frames-take_frames_example :
    ((put_frames plenty ((3 ∷ []) ∷ (4 ∷ 5 ∷ []) ∷ []) link).1 ≡ done ∷ done ∷ [])
    × (take_frames plenty 3 (put_frames plenty ((3 ∷ []) ∷ (4 ∷ 5 ∷ []) ∷ []) link).0
        ≡ (holding [] link, (1 ∷ 2 ∷ []) ∷ (3 ∷ []) ∷ (4 ∷ 5 ∷ []) ∷ []))
put_frames-take_frames_example =
    put_frames-take_frames plenty (λ size. refl) ((3 ∷ []) ∷ (4 ∷ 5 ∷ []) ∷ []) link
      (omega arith, (omega arith, tt)) (omega arith)

destroy_lem_example :
    destroy 2 link
    ≡ some (
      record link { rx_queue = emptied link.rx_queue; tx_queue = emptied link.tx_queue },
      (1 ∷ 2 ∷ []) ∷ [],
      [],
    )
destroy_lem_example = destroy_lem 2 link (omega arith) (omega arith)
