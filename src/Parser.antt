-- ===== src/Parser.antt =====
-- include/parser/parser.h and src/parser/parser.cpp: the Ethernet frame parser.
pub mod State
pub mod Parse
pub mod Accessors
pub mod Tags
pub mod Complete
pub mod Answer
pub mod Verdict
mod Tests
