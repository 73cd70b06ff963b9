-- ===== src/Packet.antt =====
-- include/packet and src/packet: what describes a packet.
pub mod FiveTuple
pub mod Addresses
pub mod Descriptor
