-- ===== src/RxQueue.antt =====
-- include/queue/rx_queue.h and src/queue/rx_queue.cpp: the receive queue.
pub mod Queue
pub mod Lifecycle
pub mod Idle
pub mod Ledger
pub mod Account
pub mod Return
pub mod History
pub mod Portion
pub mod Prepared
pub mod Halted
pub mod Session
pub mod Segments
pub mod PutDescriptor
pub mod Put
pub mod Release
pub mod Start
mod Tests
