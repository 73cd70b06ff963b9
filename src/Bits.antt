-- ===== src/Bits.antt =====
-- The integer operations `&`, `|` and `^` at variables: one equation for the lowest digit each, and
-- what follows for masks, disjoint fields and ranges.
mod Digits
pub mod Laws
pub use Digits.{bit_and_step, bit_or_step, bit_xor_step}
