-- ===== src/Lib.antt =====
-- The vnic library: a network card in software. A port (VNic) takes frames from an in-memory link,
-- parses them, checks them, hashes their flow and puts them into one of its receive queues; packets
-- of the transmit queues go back to the link.
--
-- The parts, their code, and the files here that model them:
-- - include/error_codes.h: ErrorCode.antt, with `std::expected` as `Expected`.
-- - include/parser/parser.h, src/parser/parser.cpp, include/utils/unaligned.h: Parser.antt with its
--   children, over the byte layouts of Net.antt. `Parser::parse`, `parseIpv4`, `parseIpv6`, `parseArp`
--   are `parse`, `parse_ipv4`, `parse_ipv6`, `parse_arp`; the common part of the two IP parsers is
--   `parse_l4`, given the number that stands for ICMP.
-- - include/packet, src/packet: Packet.antt; the heap of packet buffers is Memory/Heap.antt.
-- - include/rss/hash.h, src/rss/hash.cpp: Rss.antt, by the source's function names.
-- - include/validate, src/validate: Validate.antt.
-- - include/stats/stats.h: Stats.antt.
-- - include/utils/stateful.h: Stateful.antt; include/utils/fifo.h: Fifo.antt;
--   include/utils/memory_pool.h: Memory.antt.
-- - include/link, src/link, include/utils/allocator.h: Link.antt.
-- - include/queue/rx_queue.h, src/queue/rx_queue.cpp: RxQueue.antt; the transmit queue: TxQueue.antt.
-- - include/vnic/vnic.h, src/vnic/vnic.cpp: Port.antt: the configuration (Config, Control), the
--   redirection table (Table), `validate` and `distribute` (Receive), `tx`, `rx` and `freeRx` (Burst),
--   starting and stopping the queues (Queues), and the poll loop (Poll, Loop). Port/Lifetime.antt composes
--   them from a configuration to the stop of the queues.
-- - examples/common.h, the packet generator: Sample.antt.
-- - include/utils/scoped_guard.h: Guard.antt; include/utils/rcu.h: Rcu.antt.
--
-- State is passed explicitly: an operation takes the members as a record and returns them with its
-- result. Undefined behaviour (a read outside a span, a use of memory that is not allocated) is `none`,
-- so a theorem that a call returns says that there is none. Counters and hashes wrap at their width;
-- sizes and offsets are natural numbers. The callbacks of `ScopedGuard` are written out at the returns
-- that run them; a failed `assert` is `none` too. A heap maps an address to the packet buffer in the
-- block there, which has the size that `malloc` was asked for: a write past its end is `none`, where
-- `sizeof(PacketBuffer)` is 16 as on machines with pointers of 8 bytes. `malloc` is a parameter that
-- gives an address that is not in use, or fails; `sscanf` and `inet_pton` are parameters too.
--
-- Fuel: a released chain is followed for as many blocks as the caller says, and the theorems ask for
-- as many as the packet has segments; the loops of `CheckIpv4Checksum` have 31 and 3 rounds, which a
-- header of at most 15 words and a sum of 32 bits do not exhaust; `TxQueue::put` stops after 512
-- segments as the code does.
--
-- The poll loop has one round for each turn of a list (the memory and the time that it meets), and a
-- turn for each waiting frame takes them all. A queue that is stopped releases chains by the fuel of a
-- release. The drain in the destructor of the link ends one round after the last frame.
--
-- Threads: each operation of a FIFO is one step under its mutex; calls of `configure`, `start` and
-- `stop` by several threads are interleaved steps in Stateful/Threads.antt, reads and writes of an RCU
-- cell in Rcu.antt. The poll thread of the port is a flag of its state and its loop is a function; the
-- redirection table, which the code keeps in an RCU cell, is a plain value in the port. Not modelled:
-- moves of a FIFO; the clock, which is a call of the system; printing; and the
-- loops of the demonstration program, which are input and output.
pub mod Prelude
pub mod Bits
pub mod ErrorCode
pub mod Net
pub mod Parser
pub mod Stats
pub mod Guard
pub mod Rcu
pub mod Packet
pub mod Rss
pub mod Validate
pub mod Stateful
pub mod Fifo
pub mod Memory
pub mod Link
pub mod RxQueue
pub mod TxQueue
pub mod Port
pub mod Sample
