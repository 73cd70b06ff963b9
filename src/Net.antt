-- ===== src/Net.antt =====
-- What the code takes from the system's network headers, and include/utils/unaligned.h.
pub mod Bytes
pub mod Headers
pub mod Wire
pub mod Layout
pub mod Store
