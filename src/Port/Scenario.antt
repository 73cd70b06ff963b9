-- ===== src/Port/Scenario.antt =====
-- A frame that arrives at a port with two receive queues.
use vnic.Prelude.{
  refl, ℕ, ◌≡◌, ap, true, false, [], ◌∷◌, Option, none, some, Option-cases, inl, inr, Returns,
  is_some, if◌then◌else◌, replicate, arith,
}
use vnic.Net.Bytes.{loaded}
use vnic.Net.Headers.{ip_pod}
use vnic.Stats.{zero_stats}
use vnic.Parser.State.{Parser, L2Protocol, fresh_l1, fresh_l3, zero_mac}
use vnic.Parser.Accessors.{ipv4, ipv6, tcp, udp}
use vnic.Packet.FiveTuple.{get_5tuple, with_ports}
use vnic.Packet.Descriptor.{empty_descriptor}
use vnic.Memory.Heap.{Heap, Malloc}
use vnic.Rss.Protocol
use vnic.Rss.Input.{HashFunc, SymmetryMode}
use vnic.Rss.Range.{HasByteAddresses}
use vnic.RxQueue.Queue.{RxQueue}
use vnic.Port.Receive.{distribute}
use vnic.Port.State.{Port}
use vnic.Stateful.Automaton.{State, Machine}
use vnic.Fifo.Queue.{empty_fifo}
use vnic.Link.Pipe.{Link, AllocatorConfig}
use vnic.Port.Delivery.{IsServing, Delivered, distribute-Delivered}

abbrev pub one_block : Heap → Option ℕ
one_block h = if is_some (h 1) then none else some 1

pub one_block_lem : (h : Heap) (p : ℕ) → one_block h ≡ some p → h p ≡ none
one_block_lem h p e = elim (Option-cases (h 1)) [
  | inl unused ↦ ground (arith, at_1)
  | inr (b, used) ↦ ground arith
]
  where
    at_1 : 1 ≡ p → h 1 ≡ h p
    at_1 = ap h

abbrev pub memory : Malloc
memory = record { malloc = λ size. one_block; fresh = λ size. one_block_lem }

abbrev pub rx_queue : ℕ → RxQueue
rx_queue id = record {
  free = record { queue = empty_descriptor ∷ []; config = record { capacity = 1; socket_id = 0 } };
  used = record { queue = []; config = record { capacity = 1; socket_id = 0 } };
  pool = record {
    config = record { block_size = 2048; capacity = 1; socket_id = 0 };
    live = 0;
    total = 0;
  };
  stats = zero_stats;
  config = record { queue_id = id; size = 1; socket_id = 0 };
}

abbrev pub queue : ℕ → Machine RxQueue
queue id = record { state = State.started; object = rx_queue id }

abbrev hints : AllocatorConfig
hints = record { block_size = 4096; capacity = 256; socket_id = 0 }

abbrev pub link : Link
link = record {
  rx_queue = empty_fifo;
  tx_queue = empty_fifo;
  rx_allocator = hints;
  tx_allocator = hints;
  config = record {
    rx_queue_depth = 256;
    tx_queue_depth = 256;
    rx_frame_size = 4096;
    tx_frame_size = 4096;
  };
  is_up = true;
}

abbrev pub port : Port ℕ
port = record {
  link = link;
  tx_queues = [];
  thread = true;
  reta = 1 ∷ 0 ∷ [];
  rx_queues = queue 0 ∷ queue 1 ∷ [];
  stats = zero_stats;
  config = record {
    promiscuous_enabled = true;
    mtu = 1500;
    rx_queue_count = 2;
    tx_queue_count = 0;
    rss = record {
      enabled = true;
      hf = HashFunc.crc32;
      protocol = Protocol.all;
      symmetry = SymmetryMode.symmetric;
      key = replicate 40 0x6d;
      reta = 1 ∷ 0 ∷ [];
    };
    mac_addr = 0;
    vlan_allow_list = [];
    link = record {
      rx_queue_depth = 256;
      tx_queue_depth = 256;
      rx_frame_size = 4096;
      tx_frame_size = 4096;
    };
  };
  mac_addr = zero_mac;
}

pub port-IsServing : IsServing port
port-IsServing = record {
  some_queue = ground arith;
  table = λ on. record { nonempty = ground arith; power = ∣ (1, refl) ∣₁; entries = ground arith };
  ready = ground arith;
  key = ground arith;
}

-- The parser after an IPv4 frame from 10.0.0.1 to 10.0.0.2.
abbrev parsed : Parser
parsed = record {
  l1 = fresh_l1;
  l2 = record {
    protocol = L2Protocol.ipv4;
    ip = some (
        loaded ip_pod
          (0x45 ∷ 0 ∷ 0 ∷ 20 ∷ 0 ∷ 0 ∷ 0 ∷ 0 ∷ 64 ∷ 59 ∷ 0 ∷ 0 ∷ 10 ∷ 0 ∷ 0 ∷ 1 ∷ 10 ∷ 0 ∷ 0 ∷ 2
            ∷ [])
          0);
    ip6 = none;
    arp = none;
  };
  l3 = fresh_l3;
  l2_offset = 14;
  arp_sender_hw = zero_mac;
  arp_target_hw = zero_mac;
  arp_sender_proto = 0;
  arp_target_proto = 0;
  has_arp_addresses = false;
}

parsed-HasByteAddresses : HasByteAddresses (get_5tuple parsed)
unfolding get_5tuple with_ports ipv4 ipv6 tcp udp
parsed-HasByteAddresses = record {
  saddr6_bytes = ground arith;
  daddr6_bytes = ground arith;
  saddr6_size = ground arith;
  daddr6_size = ground arith;
}

distribute-Delivered_example :
    Returns
      (Delivered port (λ p. none) (replicate 64 7))
      (distribute memory 1000 parsed (replicate 64 7) port (λ p. none))
distribute-Delivered_example =
    distribute-Delivered memory 1000 parsed (replicate 64 7) port (λ p. none) port-IsServing
      parsed-HasByteAddresses
