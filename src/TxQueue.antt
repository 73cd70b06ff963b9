-- ===== src/TxQueue.antt =====
-- include/queue/tx_queue.h and src/queue/tx_queue.cpp: the transmit queue.
pub mod Queue
pub mod Lifecycle
pub mod Idle
pub mod Transmit
mod Tests
