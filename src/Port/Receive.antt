-- ===== src/Port/Receive.antt =====
-- The receive path of the port: `VNic::validate` and `VNic::distribute`.
use vnic.Prelude.{
  ℕ, ◌+◌, Bool, true, false, not, ◌&&◌, List, Option, some, ◌>>=◌, length, get_elem?, set, ltb,
  ◌==◌, if◌then◌else◌,
}
use vnic.ErrorCode.{ErrorCode, Status, ok, unexpected, done}
use vnic.Stats.{
  Stats, fetch_processed_packets, fetch_processed_bytes, fetch_dropped_packets, fetch_dropped_bytes,
}
use vnic.Parser.State.{Parser, L2Protocol}
use vnic.Parser.Accessors.{vlan_id}
use vnic.Packet.FiveTuple.{get_5tuple}
use vnic.Packet.Descriptor.{PacketDescriptor, empty_descriptor}
use vnic.Rss.Hash.{calc_hash}
use vnic.Validate.Checks.{
  check_frame_size, check_fcs, check_dst_mac, check_vlan_filter, check_ip_total_length,
  l2_header_bytes,
}
use vnic.Validate.Checksum.{check_ipv4_checksum}
use vnic.Memory.Heap.{Heap, Malloc}
use vnic.RxQueue.Queue.{RxQueue}
use vnic.RxQueue.Queue
use vnic.Stateful.Automaton.{Machine}
use vnic.Port.State.{Port}
use vnic.Port.Table.{lookup}

-- `kMinFrameSize` of include/constants.h.
abbrev pub min_frame_size : ℕ
min_frame_size = 60

-- `rssHashable`
unfoldable pub is_hashable : Parser → Bool
is_hashable p = elim p.l2.protocol [ L2Protocol.ipv4 ↦ true | L2Protocol.ipv6 ↦ true | _ ↦ false ]

-- The descriptor of a frame that arrives at the time `now`, with its hash and queue.
abbrev pub descriptor : ℕ → Parser → ℕ × ℕ → PacketDescriptor
descriptor now p (hash, queue_id) = record empty_descriptor {
  timestamp = now;
  hash = hash;
  queue_id = queue_id;
  vlan_id = vlan_id p;
}

-- The counters of a packet that is dropped.
abbrev pub count_dropped : ℕ → Stats → Stats
count_dropped bytes s = fetch_dropped_bytes bytes (fetch_dropped_packets 1 s)

module _ {ℓ} {Text : Type ℓ} where
  -- `VNic::validate`; `none` is a read outside the packet.
  unfoldable pub validate : List ℕ → Parser → Port Text → Option Status
  validate packet p port =
      if not (check_frame_size packet p min_frame_size port.config.mtu)
      then some (
          unexpected (
            if ltb (l2_header_bytes p + port.config.mtu) (length packet)
            then ErrorCode.validation_frame_too_long
            else ErrorCode.validation_frame_too_short))
      else if not (check_fcs packet)
      then some (unexpected ErrorCode.validation_fcs_invalid)
      else if not (check_dst_mac p port.mac_addr port.config.promiscuous_enabled)
      then some (unexpected ErrorCode.validation_dst_mac_mismatch)
      else if not (check_vlan_filter p port.config.vlan_allow_list)
      then some (unexpected ErrorCode.validation_vlan_rejected)
      else if not (check_ip_total_length packet p)
      then some (unexpected ErrorCode.validation_ip_total_length_invalid)
      else (check_ipv4_checksum packet p >>= λ valid.
          some (if valid then done else unexpected ErrorCode.validation_ipv4_checksum_invalid))

  -- The hash and the queue of a frame.
  unfoldable pub choose_queue : Parser → Port Text → Option (ℕ × ℕ)
  choose_queue p port =
      let rss = port.config.rss in
      let hashed = do
        hash ← calc_hash (get_5tuple p) rss.key rss.hf rss.protocol rss.symmetry
        queue_id ← lookup port.reta hash
        some (hash, queue_id)
      in if rss.enabled && is_hashable p then hashed else some (0, 0)

  -- `distribute` from `rxQueues_[queueId].put` on, with the queue that this call leaves and its
  -- results.
  unfoldable pub settle :
      ℕ → ℕ → Port Text → Machine RxQueue → Heap → Status → Port Text × Heap × Status
  settle queue_id bytes port q h s =
      let port1 = record port { rx_queues = set port.rx_queues queue_id q } in
      elim s [
        | unexpected e ↦ (record port1 { stats = count_dropped bytes port.stats }, h, unexpected e)
        | ok u ↦ (
          record port1 {
            stats = fetch_processed_bytes bytes (fetch_processed_packets 1 port.stats);
          },
          h,
          done,
        )
      ]

  -- `distribute` at the time `now`; `none` is a read outside the tables or behind `rxQueues_`, or
  -- what `RxQueue::put` leaves undefined.
  unfoldable pub distribute :
      Malloc → ℕ → Parser → List ℕ → Port Text → Heap → Option (Port Text × Heap × Status)
  distribute m now p packet port h =
      if length port.rx_queues == 0
      then some (
        record port { stats = count_dropped (length packet) port.stats },
        h,
        unexpected ErrorCode.queue_not_configured,
      )
      else do
        chosen ← choose_queue p port
        q ← get_elem? port.rx_queues chosen.1
        r ← Queue.put m (descriptor now p chosen) packet q.object h
        some (settle chosen.1 (length packet) port (record q { object = r.0 }) r.1 r.2)
