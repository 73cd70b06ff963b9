-- ===== src/Sample.antt =====
-- examples: the packet generator and the loops of the demonstration program.
mod Tests
pub mod Udp
pub mod Facts
pub mod Generated
pub mod Roundtrip
pub mod Parsed
pub mod Frame
pub mod Checksum
