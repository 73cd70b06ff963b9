-- ===== src/Link.antt =====
-- include/link/link.h and src/link/link.cpp: the in-memory link, a pair of pipes.
pub mod Pipe
pub mod Take
pub mod Order
pub mod Drain
mod Tests
