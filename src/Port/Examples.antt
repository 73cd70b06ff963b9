-- ===== src/Port/Examples.antt =====
-- A port with two receive queues: an IPv4 frame on its link, a burst, its queues and configurations.
use vnic.Prelude.{
  ℕ, ◌≡◌, refl, Bool, true, false, List, [], ◌∷◌, ◌++◌, none, some, Returns, replicate, arith,
}
use vnic.ErrorCode.{done}
use vnic.Net.Bytes.{loaded, ntohs, load_unaligned, read_bytes}
use vnic.Net.Headers.{eth_pod, ip_pod}
use vnic.Stats.{zero_stats}
use vnic.Parser.State.{Parser, L1Protocol, L2Protocol, L3Protocol, fresh_l1, fresh_l3, reset}
use vnic.Parser.Parse.{parse, parse_l2, parse_ipv4, parse_l4, unknown_l3}
use vnic.Packet.Descriptor.{PacketDescriptor, empty_descriptor}
use vnic.Memory.Heap.{Heap, update}
use vnic.Stateful.Automaton.{State, Machine}
use vnic.RxQueue.Queue.{RxQueue}
use vnic.RxQueue.Lifecycle as Rx
use vnic.TxQueue.Lifecycle as Tx
use vnic.TxQueue.Transmit.{Describes}
use vnic.Port.State.{Port}
use vnic.Port.Receive.{validate}
use vnic.Port.Delivery.{IsServing}
use vnic.Port.Poll.{new_parser, poll_round}
use vnic.Port.Admission.{admission, validate-admission}
use vnic.Port.Round.{Polled, poll_round-Polled}
use vnic.Port.Loop.{Turn, Drained, poll, poll-Drained}
use vnic.Port.Burst.{tx}
use vnic.Port.Transmission.{Transmitted, descriptors, tx-take}
use vnic.Port.Queues.{start_queues, stop_queues}
use vnic.Port.Calls.{Call}
use vnic.Port.Leak.{Stopped, session, session-Stopped}
use vnic.Port.Halt.{Halted, stop_queues-Halted}
use vnic.Port.Switch.{AllOrNone, start_queues-AllOrNone}
use vnic.Port.Scenario.{memory, port, port-IsServing}

-- From 10.0.0.1 to 10.0.0.2, with a transport protocol that the parser does not know.
abbrev frame : List ℕ
frame =
    replicate 6 0xff
    ++ (2 ∷ 0 ∷ 0 ∷ 0 ∷ 0 ∷ 1 ∷ 8 ∷ 0 ∷ [])
    ++ (0x45 ∷ 0 ∷ 0 ∷ 46 ∷ 0 ∷ 0 ∷ 0 ∷ 0 ∷ 64 ∷ 253 ∷ 0x65 ∷ 0xd1 ∷ [])
    ++ (10 ∷ 0 ∷ 0 ∷ 1 ∷ 10 ∷ 0 ∷ 0 ∷ 2 ∷ [])
    ++ replicate 26 0

abbrev parsed : Parser
parsed = record new_parser {
  l1 = record fresh_l1 { protocol = L1Protocol.eth; eth = some (loaded eth_pod frame 0) };
  l2 = record {
    protocol = L2Protocol.ipv4;
    ip = some (loaded ip_pod frame 14);
    ip6 = none;
    arp = none;
  };
  l3 = record fresh_l3 { protocol = L3Protocol.unknown };
  l2_offset = 14;
}

frame-parsed : parse new_parser frame ≡ some (parsed, done)
unfolding parse parse_l2 parse_ipv4 parse_l4 unknown_l3 reset ntohs load_unaligned read_bytes
frame-parsed = refl

validate-admission_example :
    validate frame parsed port ≡ some (admission frame 14 L1Protocol.eth L2Protocol.ipv4 port)
validate-admission_example =
    validate-admission new_parser parsed frame port (ground arith) frame-parsed

abbrev busy : Port ℕ
busy = record port {
  link = record (port.link) {
    rx_queue = record (port.link.rx_queue) { queue = frame ∷ (7 ∷ []) ∷ [] };
  };
}

busy-IsServing : IsServing busy
busy-IsServing = record {
  some_queue = port-IsServing.some_queue;
  table = port-IsServing.table;
  ready = port-IsServing.ready;
  key = port-IsServing.key;
}

abbrev turn : Turn
turn = record { malloc = memory; memory = λ size. true; now = 5 }

poll_round-Polled_example :
    Returns
      (Polled (λ size. true) busy (λ p. none))
      (poll_round memory (λ size. true) 5 busy (λ p. none))
poll_round-Polled_example =
    poll_round-Polled memory (λ size. true) 5 busy (λ p. none) busy-IsServing (ground arith)

poll-Drained_example : Returns (Drained 3 busy) (poll (turn ∷ turn ∷ turn ∷ []) busy (λ p. none))
poll-Drained_example =
    poll-Drained (turn ∷ turn ∷ turn ∷ []) busy (λ p. none)
      ((λ size. refl), ((λ size. refl), ((λ size. refl), tt))) busy-IsServing refl (ground arith)

-- A packet of one block, twice, on a pipe that takes one.
abbrev heap : Heap
heap =
    update 4 (some (record { next = none; length = 2; payload = 1 ∷ 2 ∷ []; size = 2064 }))
      (λ p. none)

abbrev item : PacketDescriptor × List ℕ
item = (record empty_descriptor { total_length = 2; buffer = some 4 }, 1 ∷ 2 ∷ [])

item-Describes : Describes heap item.0 item.1
item-Describes = (
  4 ∷ [],
  (refl, (_, [], refl, refl, refl, (refl, refl))),
  ground arith,
  refl,
  ground arith,
  ground arith,
)

abbrev sending : Port ℕ
sending = record port {
  link = record (port.link) {
    tx_queue = record { queue = []; config = record { capacity = 1; socket_id = 0 } };
  };
  tx_queues =
      record { state = State.started; object = record { linked = true; stats = zero_stats } } ∷ [];
}

tx-take_example :
    Returns
      (Transmitted sending (item ∷ item ∷ []))
      (tx (λ size. true) (λ size. true) 0 (descriptors (item ∷ item ∷ [])) sending heap)
tx-take_example =
    tx-take (λ size. true) (λ size. true) 0 (item ∷ item ∷ []) sending heap _ (λ size. refl)
      (λ size. refl) refl refl (item-Describes, (item-Describes, tt)) (ground arith)

abbrev running : Machine RxQueue
running = record Rx.new_queue { state = State.started }

-- The transmit queue has not been configured, so that nothing starts.
start_queues-AllOrNone_example :
    Returns
      (AllOrNone (λ p. none))
      (start_queues 512 (Rx.new_queue ∷ Rx.new_queue ∷ []) (Tx.new_queue ∷ []) (λ p. none))
start_queues-AllOrNone_example =
    start_queues-AllOrNone 512 (Rx.new_queue ∷ Rx.new_queue ∷ []) (Tx.new_queue ∷ []) (λ p. none)
      ((refl, refl), ((refl, refl), tt)) (refl, tt)

-- Only the first receive queue runs: it is stopped, and the stop of the others is refused.
stop_queues-Halted_example :
    Returns
      (Halted (λ p. none) false)
      (stop_queues 512 (running ∷ Rx.new_queue ∷ []) (Tx.new_queue ∷ []) (λ p. none))
stop_queues-Halted_example =
    stop_queues-Halted 512 (running ∷ Rx.new_queue ∷ []) (Tx.new_queue ∷ []) (λ p. none)
      (refl, (refl, tt))

-- The frame arrives, is taken from the link and from its queue, and one descriptor is given back.
abbrev plenty : ℕ → Bool
plenty size = true

abbrev calls : List Call
calls =
    Call.arrives plenty frame
    ∷ Call.polls (record { malloc = memory; memory = plenty; now = 7 })
    ∷ Call.receives 1
    ∷ Call.returns 1 0 1
    ∷ Call.goes_down
    ∷ []

session-Stopped_example :
    Returns (Stopped (λ p. none)) (session 512 calls port (λ p. none) ([] ∷ [] ∷ []))
session-Stopped_example =
    session-Stopped 512 calls port (λ p. none) (omega arith)
      (ground arith, (tt, (tt, (tt, (tt, tt))))) port-IsServing tt
      ((refl, refl, refl, refl), ((refl, refl, refl, refl), tt))
