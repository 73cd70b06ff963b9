-- ===== src/Memory.antt =====
-- include/utils/memory_pool.h, include/utils/allocator.h and the packet buffers of
-- include/packet/packet_buffer.h, on an explicit heap.
pub mod Heap
pub mod Pool
pub mod Chain
pub mod Split
pub mod Exchange
