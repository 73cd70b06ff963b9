-- ===== src/Validate.antt =====
-- include/validate/validate.h and src/validate/validate.cpp: the checks of a received frame.
pub mod Checks
pub mod Checksum
mod Tests
