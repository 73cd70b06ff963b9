-- ===== src/Rss.antt =====
-- include/rss/hash.h and src/rss/hash.cpp: the Receive Side Scaling hash.
pub mod Protocol
pub mod Input
pub mod Functions
pub mod Hash
pub mod Symmetry
pub mod Window
pub mod ToeplitzByte
pub mod Toeplitz
pub mod Range
mod Tests
