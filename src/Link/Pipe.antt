-- ===== src/Link/Pipe.antt =====
-- `class Link` and the `memory::Allocator` (include/utils/allocator.h) behind it. The memory of a
-- frame belongs to the pipe that holds the frame and to nothing else, so a frame is its bytes.
use vnic.Prelude.{ℕ, Bool, true, false, List, ◌++◌, none, some, length, ◌==◌, if◌then◌else◌}
use vnic.ErrorCode.{ErrorCode, Expected, Status, ok, unexpected, done}
use vnic.Fifo.Queue.{Fifo, push, pop, reserve}

-- `memory::Allocator::Config`; `isValid` is always true, so `configure` stores it.
pub record AllocatorConfig : Type 0 where
  pub block_size : ℕ
  pub capacity : ℕ
  pub socket_id : ℕ

-- `Link::Config`
pub record Config : Type 0 where
  pub rx_queue_depth : ℕ
  pub tx_queue_depth : ℕ
  pub rx_frame_size : ℕ
  pub tx_frame_size : ℕ

-- `Config{}`
abbrev pub default_config : Config
default_config = record {
  rx_queue_depth = 256;
  tx_queue_depth = 256;
  rx_frame_size = 4096;
  tx_frame_size = 4096;
}

-- The members; those of the allocators are their configurations.
pub record Link : Type 0 where
  pub rx_queue : Fifo (List ℕ)
  pub tx_queue : Fifo (List ℕ)
  pub rx_allocator : AllocatorConfig
  pub tx_allocator : AllocatorConfig
  pub config : Config
  pub is_up : Bool

-- `Config::validate`
unfoldable pub validate : Config → ErrorCode
validate c =
    if c.rx_queue_depth == 0
    then ErrorCode.config_link_rx_depth_invalid
    else if c.tx_queue_depth == 0
    then ErrorCode.config_link_tx_depth_invalid
    else if c.rx_frame_size == 0
    then ErrorCode.config_link_rx_frame_size_invalid
    else if c.tx_frame_size == 0
    then ErrorCode.config_link_tx_frame_size_invalid
    else ErrorCode.none

-- `Allocator::allocate`, given whether `malloc` of a size has memory.
unfoldable pub allocate : (ℕ → Bool) → ℕ → Status
allocate memory size =
    if size == 0
    then unexpected ErrorCode.allocator_invalid_size
    else if memory size
    then done
    else unexpected ErrorCode.allocator_allocation_failed

-- `Link::put`
unfoldable pub put : (ℕ → Bool) → List ℕ → Fifo (List ℕ) → ErrorCode → Fifo (List ℕ) × Status
unfolding allocate push
put memory packet queue full_error =
    let (queue1, pushed) = push packet queue in
    if length packet == 0
    then (queue, unexpected ErrorCode.link_packet_empty)
    else elim (allocate memory (length packet)) [
      | unexpected e ↦ (queue, unexpected e)
      | ok u ↦ elim pushed [
        | ok u' ↦ (queue1, done)
        | unexpected e ↦ (queue1, unexpected full_error)
      ]
    ]

-- `Link::take` at the end of the wait, inside `takeRx` and `takeTx`, which catch the `bad_alloc` of
-- `packet.insert`: `memory` is whether the vector can grow by the frame. The frame is gone either
-- way. The results are the queue, the vector and the number of bytes.
unfoldable pub take : (ℕ → Bool) → List ℕ → Fifo (List ℕ) → Fifo (List ℕ) × List ℕ × Expected ℕ
unfolding pop
take memory packet queue =
    let (queue1, data') = pop queue in
    elim data' [
      | none ↦ (queue1, packet, unexpected ErrorCode.timeout)
      | some frame ↦
          if memory (length frame)
          then (queue1, packet ++ frame, ok (length frame))
          else (queue1, packet, unexpected ErrorCode.link_allocation_failed)
    ]

-- `putRx`, `takeRx`, `putTx` and `takeTx`
unfoldable pub put_rx : (ℕ → Bool) → List ℕ → Link → Link × Status
unfolding put
put_rx memory packet link =
    let (queue, s) = put memory packet link.rx_queue ErrorCode.link_rx_queue_full in
    (record link { rx_queue = queue }, s)

unfoldable pub take_rx : (ℕ → Bool) → List ℕ → Link → Link × List ℕ × Expected ℕ
unfolding take
take_rx memory packet link =
    let (queue, bytes, s) = take memory packet link.rx_queue in
    (record link { rx_queue = queue }, bytes, s)

unfoldable pub put_tx : (ℕ → Bool) → List ℕ → Link → Link × Status
unfolding put
put_tx memory packet link =
    let (queue, s) = put memory packet link.tx_queue ErrorCode.link_tx_queue_full in
    (record link { tx_queue = queue }, s)

unfoldable pub take_tx : (ℕ → Bool) → List ℕ → Link → Link × List ℕ × Expected ℕ
unfolding take
take_tx memory packet link =
    let (queue, bytes, s) = take memory packet link.tx_queue in
    (record link { tx_queue = queue }, bytes, s)

-- `Link::configure`, after the validation.
unfoldable pub apply : Config → Link → Link
unfolding reserve
apply c link = record link {
  rx_queue = reserve c.rx_queue_depth link.rx_queue;
  tx_queue = reserve c.tx_queue_depth link.tx_queue;
  rx_allocator = record {
    block_size = c.rx_frame_size;
    capacity = c.rx_queue_depth;
    socket_id = 0;
  };
  tx_allocator = record {
    block_size = c.tx_frame_size;
    capacity = c.tx_queue_depth;
    socket_id = 0;
  };
  config = c;
}

-- `Link::configure`
unfoldable pub configure : Config → Link → Link × Status
unfolding validate apply
configure c link = elim (validate c) [
  | ErrorCode.none ↦ (apply c link, done)
  | code ↦ (link, unexpected code)
]

-- `up` and `down`
unfoldable pub up : Link → Link × Status
up link = (record link { is_up = true }, done)

unfoldable pub down : Link → Link × Status
down link = (record link { is_up = false }, done)
