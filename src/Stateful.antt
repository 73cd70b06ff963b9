-- ===== src/Stateful.antt =====
-- include/utils/stateful.h: the configure/start/stop automaton that ports and queues derive from.
pub mod Automaton
pub mod Lifecycle
pub mod Threads
mod Tests
