-- ===== src/Link/Take.antt =====
-- What `takeRx` and `takeTx` do to a pipe, by what is in it.
use vnic.Prelude.{ℕ, ◌≡◌, arith, Bool, true, false, List, [], ◌∷◌, ◌++◌, length}
use vnic.ErrorCode.{ErrorCode, ok, unexpected}
use vnic.Fifo.Queue.{pop}
use vnic.Link.Pipe.{Link, take, take_rx}

module _ (memory : ℕ → Bool) (packet : List ℕ) (link : Link) where
  pub take_rx_empty :
      link.rx_queue.queue ≡ []
      → take_rx memory packet link ≡ (link, packet, unexpected ErrorCode.timeout)
  unfolding take_rx take pop
  take_rx_empty e = ground arith

  pub take_rx_frame :
      (frame : List ℕ) (rest : List (List ℕ))
      → link.rx_queue.queue ≡ frame ∷ rest
      → memory (length frame) ≡ true
      → take_rx memory packet link ≡ (
        record link { rx_queue = record (link.rx_queue) { queue = rest } },
        packet ++ frame,
        ok (length frame),
      )
  unfolding take_rx take pop
  take_rx_frame frame rest e grows = ground arith

  pub take_rx_lost :
      (frame : List ℕ) (rest : List (List ℕ))
      → link.rx_queue.queue ≡ frame ∷ rest
      → memory (length frame) ≡ false
      → take_rx memory packet link ≡ (
        record link { rx_queue = record (link.rx_queue) { queue = rest } },
        packet,
        unexpected ErrorCode.link_allocation_failed,
      )
  unfolding take_rx take pop
  take_rx_lost frame rest e full = ground arith
