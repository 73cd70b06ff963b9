-- ===== src/Fifo.antt =====
-- include/utils/fifo.h: the bounded first-in first-out queue. Every operation holds the mutex from
-- its first read to its last write, so each is one step; a wait is over when the step is made.
pub mod Queue
pub mod Laws
mod Tests
