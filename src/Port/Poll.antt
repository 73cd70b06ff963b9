-- ===== src/Port/Poll.antt =====
-- The body of the loop of `VNic::poll`.
use vnic.Prelude.{ℕ, Bool, false, List, [], Option, some, ◌>>=◌, length, ◌==◌, if◌then◌else◌}
use vnic.ErrorCode.{ErrorCode, eqb, Expected, ok, unexpected}
use vnic.Stats.{fetch_errors}
use vnic.Parser.State.{Parser, fresh_l1, fresh_l2, fresh_l3, zero_mac}
use vnic.Parser.Parse.{parse}
use vnic.Memory.Heap.{Heap, Malloc}
use vnic.Link.Pipe.{Link, take_rx}
use vnic.Port.State.{Port}
use vnic.Port.Receive.{validate, distribute, count_dropped}

-- `Parser()`
abbrev pub new_parser : Parser
new_parser = record {
  l1 = fresh_l1;
  l2 = fresh_l2;
  l3 = fresh_l3;
  l2_offset = 0;
  arp_sender_hw = zero_mac;
  arp_target_hw = zero_mac;
  arp_sender_proto = 0;
  arp_target_proto = 0;
  has_arp_addresses = false;
}

module _ {ℓ} {Text : Type ℓ} where
  -- A packet that does not parse or is not valid.
  abbrev pub reject : ℕ → Port Text → Port Text
  reject bytes port = record port { stats = count_dropped bytes (fetch_errors 1 port.stats) }

  -- The body from the parser on, for a packet that was taken from the link.
  unfoldable pub process : Malloc → ℕ → List ℕ → Port Text → Heap → Option (Port Text × Heap)
  process m now packet port h = do
    parsed ← parse new_parser packet
    elim parsed.1 [
      | unexpected e ↦ some (reject (length packet) port, h)
      | ok u ↦ do
        valid ← validate packet parsed.0 port
        elim valid [
          | unexpected e ↦ some (reject (length packet) port, h)
          | ok u' ↦ distribute m now parsed.0 packet port h >>= λ r. some (r.0, r.1)
        ]
    ]

  -- The body behind `takeRx`, with its results: the link, `buffer`, and what was `taken`.
  unfoldable pub poll_taken :
      Malloc → ℕ → Port Text → Heap → Link × List ℕ × Expected ℕ → Option (Port Text × Heap)
  poll_taken m now port h (link, buffer, unexpected e) =
      if eqb e ErrorCode.timeout
      then some (record port { link = link }, h)
      else some (record port { link = link; stats = fetch_errors 1 port.stats }, h)
  poll_taken m now port h (link, buffer, ok n) =
      if n == 0
      then some (record port { link = link }, h)
      else process m now buffer (record port { link = link }) h

  -- One round at the time `now`, at the end of its wait. `memory` is whether `buffer` can grow to a
  -- size, `m` the memory of the queues.
  unfoldable pub poll_round : Malloc → (ℕ → Bool) → ℕ → Port Text → Heap → Option (Port Text × Heap)
  poll_round m memory now port h =
      if port.link.is_up
      then poll_taken m now port h (take_rx memory [] port.link)
      else some (port, h)
